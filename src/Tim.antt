-- ===== src/Tim.antt =====
-- wtmi/tim.c: the trusted image headers in the boot flash, and the images that they describe.
pub mod Parse
pub mod Check
pub mod Trust
mod Tests
use mox_boot_builder.Prelude.{ℕ, ◌+◌, ◌*◌, Bool, List, [], ◌∷◌}

abbrev pub timh_id : ℕ
timh_id = 0x54494d48

abbrev pub timn_id : ℕ
timn_id = 0x54494d4e

abbrev pub res_id : ℕ
res_id = 0x4f505448

abbrev pub imap_id : ℕ
imap_id = 0x494d4150

abbrev pub cskt_id : ℕ
cskt_id = 0x43534b54

abbrev pub bootfs_spinor : ℕ
bootfs_spinor = 0x5350490a

abbrev pub hashalg_sha256 : ℕ
hashalg_sha256 = 32

abbrev pub hashalg_sha512 : ℕ
hashalg_sha512 = 64

-- `timhdr_t`, the fields that the code reads: 14 words.
pub record TimHeader : Type 0 where
  pub identifier : ℕ
  pub trusted : ℕ
  pub bootflashsign : ℕ
  pub numimages : ℕ
  pub numkeys : ℕ
  pub sizeofreserved : ℕ

-- `imginfo_t`, the fields that the code reads: 27 words.
pub record ImgInfo : Type 0 where
  pub id : ℕ
  pub flashentryaddr : ℕ
  pub size : ℕ
  pub hashalg : ℕ
  pub hash : List ℕ
  pub encalg : ℕ

-- An entry of an image map.
pub record ImapEntry : Type 0 where
  pub id : ℕ
  pub type : ℕ
  pub flashentryaddr0 : ℕ
  pub flashentryaddr1 : ℕ
  pub partitionnumber : ℕ

-- `respkg_t`: a package of the reserved area; `nmaps` and `map` are what an image map holds.
pub record ResPkg : Type 0 where
  pub id : ℕ
  pub size : ℕ
  pub nmaps : ℕ
  pub map : ImapEntry

-- `platds_t`, the fields that the code reads: the algorithms, and the key and signature as a type
-- that the cryptography gives.
pub record PlatDs (K : Type 0) : Type 0 where
  pub dsalg : ℕ
  pub hashalg : ℕ
  pub keysize : ℕ
  pub pub_key : K
  pub sig : K

-- A header read from flash: `reshdr` is the header of the reserved area, its identifier and the
-- number of packages.
pub record Tim (K : Type 0) : Type 0 where
  pub hdr : TimHeader
  pub images : List ImgInfo
  pub reshdr_id : ℕ
  pub reshdr_pkgs : ℕ
  pub pkgs : List ResPkg
  pub platds : PlatDs K

-- The sizes of the C structures, in bytes.
abbrev pub sizeof_timhdr : ℕ
sizeof_timhdr = 56

abbrev pub sizeof_imginfo : ℕ
sizeof_imginfo = 108

abbrev pub sizeof_keyinfo : ℕ
sizeof_keyinfo = 596

abbrev pub sizeof_reshdr : ℕ
sizeof_reshdr = 8

abbrev pub sizeof_platds : ℕ
sizeof_platds = 812

-- `die()`: the processor waits for ever. `fault` is a read through a null pointer.
pub data Outcome (A : Type 0) : Type 0 where
  done : A → Outcome A
  dies fault : Outcome A

infixl 5 ◌>>=◌
abbrev pub ◌>>=◌ : {A B : Type 0} → Outcome A → (A → Outcome B) → Outcome B
done a >>= k = k a
dies >>= k = dies
fault >>= k = fault
