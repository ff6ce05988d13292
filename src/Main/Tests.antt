-- ===== src/Main/Tests.antt =====
-- Runs of the entry point.
use nospoon.Base.{true, none, [], ◌∷◌, codes}
use nospoon.Config.{Files}
use nospoon.Main.{main, main-IsChecked, IsChecked}

abbrev no_files : Files
no_files path = none

main-IsChecked_example : IsChecked (main no_files true (codes "up" ∷ []))
main-IsChecked_example = main-IsChecked no_files true (codes "up" ∷ [])
