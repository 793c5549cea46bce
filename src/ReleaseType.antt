-- ===== src/ReleaseType.antt =====
-- internal/domain/releasetype.go: the vocabularies of release types and of product lifecycles.
use native.Mathlib.Decide.{ℕ_discrete}
use firmscout.Base.{Bool, true, false}
use firmscout.Base.Text.{Str, text}

pub data ReleaseType : Type 0 where
  firmware bios bmc_firmware driver operating_system embedded_os : ReleaseType
  application_software saas_release management_platform security_update : ReleaseType
  documentation_only unknown advisory : ReleaseType
  unlisted : Str → ReleaseType

unfoldable pub ReleaseType-discrete : Discrete ReleaseType
ReleaseType-discrete = hlevel ℕ_discrete

unfoldable pub valid_release_type : ReleaseType → Bool
valid_release_type (unlisted s) = false
valid_release_type _ = true

-- `string(t)`
abbrev pub type_name : ReleaseType → Str
type_name firmware = text "firmware"
type_name bios = text "bios"
type_name bmc_firmware = text "bmc_firmware"
type_name driver = text "driver"
type_name operating_system = text "operating_system"
type_name embedded_os = text "embedded_os"
type_name application_software = text "application_software"
type_name saas_release = text "saas_release"
type_name management_platform = text "management_platform"
type_name security_update = text "security_update"
type_name documentation_only = text "documentation_only"
type_name advisory = text "advisory"
type_name unknown = text "unknown"
type_name (unlisted s) = s

unfoldable pub display_name : ReleaseType → Str
display_name firmware = text "Firmware"
display_name bios = text "BIOS"
display_name bmc_firmware = text "BMC firmware"
display_name driver = text "Device driver"
display_name operating_system = text "Operating system"
display_name embedded_os = text "Embedded operating system"
display_name application_software = text "Application software"
display_name saas_release = text "SaaS release"
display_name management_platform = text "Management platform"
display_name security_update = text "Security update"
display_name documentation_only = text "Documentation-only update"
display_name advisory = text "Security advisory"
display_name unknown = text "Unknown"
display_name (unlisted s) = s

abbrev pub needs_classification : ReleaseType → Bool
needs_classification unknown = true
needs_classification _ = false

pub data LifecycleStatus : Type 0 where
  active maintenance eol_announced eol eos unknown : LifecycleStatus
  unlisted : Str → LifecycleStatus

unfoldable pub valid_lifecycle_status : LifecycleStatus → Bool
valid_lifecycle_status (unlisted s) = false
valid_lifecycle_status _ = true
