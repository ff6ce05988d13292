-- ===== src/Validation/Tests.antt =====
-- Runs of the validators at concrete texts.
use nospoon.Base.{◌≡◌, ◌↔◌, true, codes}
use nospoon.Validation.{validate_cidr}
use nospoon.Validation.Cidr.{validate_cidr-IsNetwork, IsNetwork}

validate_cidr-IsNetwork_example :
    ((validate_cidr (codes "10.0.0.1/24") (codes "ip")).valid ≡ true)
    ↔ IsNetwork (codes "10.0.0.1/24")
validate_cidr-IsNetwork_example = validate_cidr-IsNetwork (codes "10.0.0.1/24") (codes "ip")
