-- ===== src/Tim/Check.antt =====
-- Checking a header and an image (tim.c). The hash, the signature check, the fuses and the flash
-- are an interface: the board's state does not change while an image is loaded.
use mox_boot_builder.Prelude.{
  ℕ, zero, suc, ◌+◌, ◌%◌, ◌^◌, Bool, true, false, not, ◌&&◌, ◌||◌, Option, none, some, List, [],
  ◌∷◌, bit_and, bit_or, ◌==◌, ◌!=◌, ltb, leb, if◌then◌else◌, replicate,
}
use mox_boot_builder.Bits.{◌<<◌, ◌>>>◌, u16}
use mox_boot_builder.Tim.{
  ImgInfo, Tim, timh_id, timn_id, bootfs_spinor, hashalg_sha256, hashalg_sha512, Outcome, done,
  dies, ◌>>=◌,
}
use mox_boot_builder.Tim.Parse.{tim_find_image, tim_size, find_timn_entry}

-- What tim.c calls.
pub record Board (K : Type 0) : Type 0 where
  -- `efuse_read_row(row, &val, NULL)`: none is an error
  pub efuse_row : ℕ → Option ℕ
  -- the header at an offset of the boot flash
  pub read_tim : ℕ → Tim K
  -- `boot_device_read` of an image: offset and size
  pub read_image : ℕ → ℕ → List ℕ
  -- `key_hash` with padding
  pub key_hash : K → List ℕ
  -- the hash of the header up to its signature, after `bswap_hash`
  pub tim_hash : Tim K → List ℕ
  -- `ecdsa_verify(pub, sig, hash) == 1`
  pub ecdsa_verify : K → K → List ℕ → Bool
  -- `hw_hash(hashid, buf, size, digest)`: the sixteen words of the digest; none is an error
  pub hw_hash : ℕ → List ℕ → ℕ → Option (List ℕ)

-- `memcmp` of two arrays of words is 0.
unfoldable pub same_words : List ℕ → List ℕ → Bool
same_words [] [] = true
same_words [] (y ∷ ys) = false
same_words (x ∷ xs) [] = false
same_words (x ∷ xs) (y ∷ ys) = x == y && same_words xs ys

-- `is_board_trusted() == !!hdr->trusted`
abbrev pub same : Bool → Bool → Bool
same true b = b
same false b = not b

-- `ecc_3bit_majority`, on the three low bits
unfoldable pub ecc_3bit_majority : ℕ → ℕ
ecc_3bit_majority x = let v = bit_and x 7 in if ltb v 3 || v == 4 then 0 else 1

module _ {K : Type 0} (board : Board K) where
  -- `is_board_trusted`, without its cache.
  unfoldable pub is_board_trusted : Outcome Bool
  is_board_trusted = elim (board.efuse_row 1) [
    | none ↦ dies
    | some row ↦
        let v = u16 row in
        let state = bit_or (ecc_3bit_majority v) (ecc_3bit_majority (v >>> 4) << 1) in
        if state == 3 then dies else done (state == 2)
  ]

  -- The loop of `board_read_otp_hash` from row `8 + i` on, with `n` rows left.
  unfoldable pub otp_words : ℕ → ℕ → Outcome (List ℕ)
  otp_words zero i = done []
  otp_words (suc n) i = elim (board.efuse_row (8 + i)) [
    | none ↦ dies
    | some row ↦ otp_words n (i + 1) >>= λ ws. done (row % 2 ^ 32 ∷ (row >>> 32) ∷ ws)
  ]

  -- The checks of `check_tim` for a header that says that it is trusted.
  unfoldable pub check_signature : Tim K → Outcome Bool
  check_signature t =
      if t.platds.dsalg != 6 || t.platds.hashalg != hashalg_sha256 || t.platds.keysize != 521
      then done false
      else (do
        otp_hash ← otp_words 4 0
        if same_words (board.key_hash t.platds.pub_key) otp_hash
            then done (board.ecdsa_verify t.platds.pub_key t.platds.sig (board.tim_hash t))
            else done false)

  -- The header's own entry among the images has the header's size.
  unfoldable pub describes_itself : Tim K → Bool
  describes_itself t = elim (tim_find_image t t.hdr.identifier) [
    | none ↦ false
    | some self ↦ self.size == tim_size t.hdr
  ]

  -- `is_board_trusted() != !!hdr->trusted`, and the signature.
  abbrev pub check_trust : Tim K → Bool → Outcome Bool
  check_trust t trusted =
      if not (same trusted (t.hdr.trusted != 0))
      then done false
      else if trusted
      then check_signature t
      else done true

  abbrev pub is_wrong : Tim K → ℕ → Bool
  is_wrong t wanted =
      t.hdr.identifier != wanted || t.hdr.bootflashsign != bootfs_spinor || not (describes_itself t)

  -- `check_tim`: true is the return of 0.
  unfoldable pub check_tim : Tim K → ℕ → Outcome Bool
  check_tim t wanted =
      if leb 0x2000 (tim_size t.hdr)
      then done false
      else if t.hdr.sizeofreserved % 4 != 0
      then dies
      else if is_wrong t wanted
      then done false
      else is_board_trusted >>= check_trust t

  abbrev pub use_timn : Tim K → Bool → Outcome (Option (Tim K))
  use_timn timn fine = if fine then done (some timn) else done none

  abbrev pub load_timn : ℕ → Outcome (Option (Tim K))
  load_timn entry =
      if entry == 0 || leb 0x20000 entry
      then done none
      else check_tim (board.read_tim entry) timn_id >>= use_timn (board.read_tim entry)

  abbrev pub use_timh : Tim K → Bool → Outcome (Option (Tim K))
  use_timh timh good =
      if not good
      then done none
      else if timh.hdr.trusted == 0
      then done (some timh)
      else find_timn_entry timh >>= load_timn

  -- `load_tim`: the header to use, or none for -1.
  unfoldable pub load_tim : Outcome (Option (Tim K))
  load_tim = check_tim (board.read_tim 0) timh_id >>= use_timh (board.read_tim 0)

  abbrev pub is_hashalg : ℕ → Bool
  is_hashalg a = a == hashalg_sha256 || a == hashalg_sha512

  -- `check_image_hash`
  unfoldable pub check_image_hash : ImgInfo → List ℕ → Bool
  check_image_hash img buf =
      if not (is_hashalg img.hashalg)
      then false
      else if img.encalg != 0
      then false
      else if same_words img.hash (replicate 16 0)
      then true
      else elim (board.hw_hash img.hashalg buf img.size) [
        | none ↦ false
        | some digest ↦ same_words img.hash digest
      ]

  abbrev pub read_checked : ImgInfo → Outcome (Option (List ℕ))
  read_checked img =
      let buf = board.read_image img.flashentryaddr img.size in
      if not (is_hashalg img.hashalg)
      then done none
      else if check_image_hash img buf
      then done (some buf)
      else done none

  abbrev pub read_found : Option ImgInfo → Outcome (Option (List ℕ))
  read_found none = done none
  read_found (some img) = read_checked img

  abbrev pub use_tim : ℕ → Option (Tim K) → Outcome (Option (List ℕ))
  use_tim wanted none = done none
  use_tim wanted (some t) = read_found (tim_find_image t wanted)

  -- `load_image`: the bytes of the image, or none for -1.
  unfoldable pub load_image : ℕ → Outcome (Option (List ℕ))
  load_image wanted = load_tim >>= use_tim wanted
