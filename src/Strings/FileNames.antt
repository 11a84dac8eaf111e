-- ===== src/Strings/FileNames.antt =====
-- `removeFilenameExt`, `changeFilenameExt` and `getUrlPath` in strings/string_utils.cpp.
use hiaux.Base.{
  ℕ, ◌≡◌, ◌≢◌, refl, ap, ◌∷◌, ◌++◌, Bool, false, Option, some, none, Bytes, length, take, ltb,
  if◌then◌else◌, arith, All-append, Option-cases, inl, inr, lt→ltb, le→ltb, take-append,
}
use hiaux.Text.Find.{
  find, find_last, Lacks, find-append, Lacks-find, find_last-append, find_last-front,
  find_last-bound,
}

-- The slash is behind the dot.
unfoldable pub is_behind : Option ℕ → ℕ → Bool
is_behind none dot_pos = false
is_behind (some slash_pos) dot_pos = ltb dot_pos slash_pos

unfoldable pub cut_ext : Bytes → Option ℕ → Option ℕ → Bytes
cut_ext s none slash_pos = s
cut_ext s (some dot_pos) slash_pos = if is_behind slash_pos dot_pos then s else take dot_pos s

unfoldable pub remove_filename_ext : Bytes → Bytes
remove_filename_ext s = cut_ext s (find_last b'.' s) (find_last b'/' s)

unfoldable pub put_ext : Bytes → Bytes → Option ℕ → Bytes
put_ext s ext none = s ++ b'.' ∷ ext
put_ext s ext (some dot_pos) = take dot_pos s ++ b'.' ∷ ext

unfoldable pub change_filename_ext : Bytes → Bytes → Bytes
change_filename_ext s ext = put_ext s ext (find_last b'.' s)

unfoldable pub path_before : Bytes → Option ℕ → Bytes
path_before url none = url
path_before url (some qpos) = take qpos url

unfoldable pub get_url_path : Bytes → Bytes
get_url_path url = path_before url (find b'?' url)

-- `removeFilenameExt` takes the extension off a file's name, dots in front of it left as they are.
pub remove_filename_ext-ext :
    (base ext : Bytes)
    → Lacks b'.' ext
    → Lacks b'/' ext
    → remove_filename_ext (base ++ b'.' ∷ ext) ≡ base
unfolding remove_filename_ext cut_ext is_behind
remove_filename_ext-ext base ext h k =
    rw (find_last-append b'.' base ext h, find_last-front b'/' base (b'.' ∷ ext) (omega arith, k))
      (elim (Option-cases (find_last b'/' base)) [
        | inl e ↦ rw e (take-append base (b'.' ∷ ext))
        | inr (j, e) ↦
            let before = find_last-bound b'/' base j e in
            rw (e, le→ltb (length base) j (omega arith)) (take-append base (b'.' ∷ ext))
      ])

-- A file without an extension keeps its name, whatever dots its directory has.
pub remove_filename_ext-directory :
    (dir file : Bytes)
    → Lacks b'.' file
    → Lacks b'/' file
    → remove_filename_ext (dir ++ b'/' ∷ file) ≡ dir ++ b'/' ∷ file
unfolding remove_filename_ext cut_ext is_behind
remove_filename_ext-directory dir file h k =
    rw (find_last-append b'/' dir file k, find_last-front b'.' dir (b'/' ∷ file) (omega arith, h))
      (elim (Option-cases (find_last b'.' dir)) [
        | inl e ↦ rw e refl
        | inr (j, e) ↦ rw (e, lt→ltb j (length dir) (find_last-bound b'.' dir j e)) refl
      ])

-- `changeFilenameExt` puts the new extension behind the last dot: in a path whose only dots are in
-- the directory's name that is where the directory's name is cut, and the file's name is lost.
pub change_filename_ext-directory :
    (dir rest file ext : Bytes)
    → Lacks b'.' rest
    → Lacks b'.' file
    → change_filename_ext (dir ++ b'.' ∷ (rest ++ b'/' ∷ file)) ext ≡ dir ++ b'.' ∷ ext
unfolding change_filename_ext put_ext
change_filename_ext-directory dir rest file ext h k =
    rw
      (find_last-append b'.' dir (rest ++ b'/' ∷ file)
        (All-append (λ x. x ≢ b'.') rest (b'/' ∷ file) h (omega arith, k)))
      (ap (λ d. d ++ b'.' ∷ ext) (take-append dir (b'.' ∷ (rest ++ b'/' ∷ file))))

-- The path of a URL is what stands before the first question mark.
pub get_url_path_lem :
    (path query : Bytes)
    → Lacks b'?' path
    → (get_url_path (path ++ b'?' ∷ query) ≡ path) × (get_url_path path ≡ path)
unfolding get_url_path path_before
get_url_path_lem path query h = (
  rw (find-append b'?' path query h) (take-append path (b'?' ∷ query)),
  rw (Lacks-find b'?' path h) refl,
)
