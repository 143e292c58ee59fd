-- ===== src/Tim/Parse.antt =====
-- Finding images and packages in a header (tim.c).
use mox_boot_builder.Prelude.{
  ℕ, zero, suc, ◌+◌, ◌*◌, ◌%◌, ◌&&◌, ◌||◌, Option, none, some, List, [], ◌∷◌, ◌==◌, ◌!=◌, ltb,
  if◌then◌else◌,
}
use mox_boot_builder.Bits.{u32}
use mox_boot_builder.Tim.{
  TimHeader, ImgInfo, ResPkg, Tim, imap_id, res_id, cskt_id, sizeof_timhdr, sizeof_imginfo,
  sizeof_keyinfo, sizeof_reshdr, sizeof_platds, Outcome, done, dies, fault, ◌>>=◌,
}

-- The loop of `tim_find_image`, with `n` images left; the list holds at least that many.
unfoldable pub find_image : ℕ → ℕ → List ImgInfo → Option ImgInfo
find_image zero wanted imgs = none
find_image (suc n) wanted [] = none
find_image (suc n) wanted (img ∷ imgs) =
    let rest = find_image n wanted imgs in if img.id == wanted then some img else rest

unfoldable pub tim_find_image : {K : Type 0} → Tim K → ℕ → Option ImgInfo
tim_find_image t wanted = find_image t.hdr.numimages wanted t.images

-- `tim_size`, in 32 bits
unfoldable pub tim_size : TimHeader → ℕ
tim_size hdr =
    let r1 = u32 (sizeof_timhdr + hdr.numimages * sizeof_imginfo) in
    let r2 = u32 (r1 + hdr.numkeys * sizeof_keyinfo) in
    let r3 = u32 (r2 + hdr.sizeofreserved) in
    if hdr.trusted != 0 then u32 (r3 + sizeof_platds) else r3

-- The loop of `find_respkg` over the packages from byte `pos` of the reserved area on, with `n`
-- packages left.
unfoldable pub find_pkg : ℕ → ℕ → ℕ → ℕ → List ResPkg → Outcome (Option ResPkg)
find_pkg zero limit wanted pos pkgs = done none
find_pkg (suc n) limit wanted pos [] = done none
find_pkg (suc n) limit wanted pos (pkg ∷ pkgs) =
    let next = u32 (pos + pkg.size) in
    let rest = find_pkg n limit wanted next pkgs in
    if pkg.size % 4 != 0 || ltb pkg.size 8
    then dies
    else if ltb limit next
    then done none
    else if pkg.id == wanted
    then done (some pkg)
    else rest

unfoldable pub find_respkg : {K : Type 0} → Tim K → ℕ → Outcome (Option ResPkg)
find_respkg t wanted =
    if ltb t.hdr.sizeofreserved sizeof_reshdr
    then done none
    else if t.reshdr_id != res_id
    then done none
    else find_pkg t.reshdr_pkgs t.hdr.sizeofreserved wanted sizeof_reshdr t.pkgs

-- `find_timn_entry` on the package that was found; a null pointer is not tested for.
unfoldable pub timn_entry : Option ResPkg → Outcome ℕ
timn_entry none = fault
timn_entry (some imap) =
    if ltb imap.size 12
    then done 0
    else if imap.nmaps != 1
    then done 0
    else if imap.size != u32 (12 + imap.nmaps * 20)
    then done 0
    else if imap.map.id == cskt_id
        && imap.map.type == 0
        && imap.map.flashentryaddr1 == 0
        && imap.map.partitionnumber == 0
    then done imap.map.flashentryaddr0
    else done 0

unfoldable pub find_timn_entry : {K : Type 0} → Tim K → Outcome ℕ
find_timn_entry t = do imap ← find_respkg t imap_id; timn_entry imap
