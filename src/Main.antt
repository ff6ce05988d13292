-- ===== src/Main.antt =====
-- cpp/main.cpp: which command a call of the program runs.
mod Tests
use nospoon.Base.{
  ◌≡◌, ◌∙◌, sym, subst, ap, refl, ℕ, Bool, true, false, not, List, [], ◌∷◌, Bytes, codes, same,
  same_iff, if◌then◌else◌, arith, Bool-cases,
}
use nospoon.Config.{Config, Files, Loaded, loaded, exits, load_config}
use nospoon.Config.Checked.{IsValid, load_config-IsValid}

pub data Command : Type 0 where
  returns : ℕ → Command
  usage : ℕ → Command
  genkey inspect check init addclient : Command
  run_server run_client : Config → Command
  unknown_mode : Bytes → Command
  config_exits : Bytes → Command

abbrev by_mode : Config → Command
by_mode config =
    if same config.mode (codes "server")
    then run_server config
    else if same config.mode (codes "client")
    then run_client config
    else unknown_mode config.mode

abbrev with_config : Loaded Config → Command
with_config (loaded config) = by_mode config
with_config (exits message) = config_exits message

-- `argv[2]`, or the default.
abbrev up_path : List Bytes → Bytes
up_path [] = codes "/etc/nospoon/config.jsonc"
up_path (path ∷ _) = path

abbrev config_path : Bytes → List Bytes → Bytes
config_path verb args = if same verb (codes "up") then up_path args else verb

abbrev tunnel : Files → Bytes → List Bytes → Command
tunnel files verb args = with_config (load_config files (config_path verb args))

-- The verbs, in the order in which they are compared.
unfoldable pub dispatch : Files → Bytes → List Bytes → Command
unfolding load_config
dispatch files verb args =
    if same verb (codes "--help")
    then usage 0
    else if same verb (codes "-h")
    then usage 0
    else if same verb (codes "genkey")
    then genkey
    else if same verb (codes "inspect")
    then inspect
    else if same verb (codes "check")
    then check
    else if same verb (codes "init")
    then init
    else if same verb (codes "addclient")
    then addclient
    else tunnel files verb args

-- `main` on the arguments behind the program's name; the flag says whether libsodium starts.
unfoldable pub main : Files → Bool → List Bytes → Command
unfolding dispatch
main files sodium [] = if not sodium then returns 1 else usage 1
main files sodium (verb ∷ args) = if not sodium then returns 1 else dispatch files verb args

-- A command that runs a tunnel has a checked configuration, of the mode that it is run for.
abbrev pub IsChecked : Command → Type 0
IsChecked (run_server config) = IsValid config × (config.mode ≡ codes "server")
IsChecked (run_client config) = IsValid config × (config.mode ≡ codes "client")
IsChecked _ = Unit

if-IsChecked :
    (b : Bool) (x y : Command)
    → (b ≡ true → IsChecked x)
    → (b ≡ false → IsChecked y)
    → IsChecked (if b then x else y)
if-IsChecked true x y p q = p refl
if-IsChecked false x y p q = q refl

by_mode-IsChecked : (config : Config) → IsValid config → IsChecked (by_mode config)
by_mode-IsChecked config v =
    if-IsChecked (same config.mode (codes "server")) (run_server config) _
      (λ e. (v, (same_iff config.mode (codes "server")).0 e))
      (λ _.
        if-IsChecked (same config.mode (codes "client")) (run_client config)
          (unknown_mode config.mode) (λ e. (v, (same_iff config.mode (codes "client")).0 e))
          (λ _. tt))

with_config-IsChecked :
    (files : Files) (path : Bytes) (l : Loaded Config)
    → load_config files path ≡ l
    → IsChecked (with_config l)
with_config-IsChecked files path (loaded config) e =
    by_mode-IsChecked config (load_config-IsValid files path e)
with_config-IsChecked files path (exits message) e = tt

dispatch-IsChecked :
    (files : Files) (verb : Bytes) (args : List Bytes) → IsChecked (dispatch files verb args)
unfolding dispatch
dispatch-IsChecked files verb args =
    if-IsChecked (same verb (codes "--help")) (usage 0) _ (λ _. tt)
      (λ _.
        if-IsChecked (same verb (codes "-h")) (usage 0) _ (λ _. tt)
          (λ _.
            if-IsChecked (same verb (codes "genkey")) genkey _ (λ _. tt)
              (λ _.
                if-IsChecked (same verb (codes "inspect")) inspect _ (λ _. tt)
                  (λ _.
                    if-IsChecked (same verb (codes "check")) check _ (λ _. tt)
                      (λ _.
                        if-IsChecked (same verb (codes "init")) init _ (λ _. tt)
                          (λ _.
                            if-IsChecked (same verb (codes "addclient")) addclient
                              (tunnel files verb args) (λ _. tt)
                              (λ _.
                                with_config-IsChecked files (config_path verb args)
                                  (load_config files (config_path verb args)) refl)))))))

-- Whatever the arguments, a tunnel is only run with a configuration that passed every check, the
-- server's for the mode server and the client's for the mode client.
pub main-IsChecked :
    (files : Files) (sodium : Bool) (args : List Bytes) → IsChecked (main files sodium args)
unfolding main
main-IsChecked files sodium [] = if-IsChecked (not sodium) (returns 1) (usage 1) (λ _. tt) (λ _. tt)
main-IsChecked files sodium (verb ∷ args) =
    if-IsChecked (not sodium) (returns 1) (dispatch files verb args) (λ _. tt)
      (λ _. dispatch-IsChecked files verb args)
