-- ===== src/Filesystem/Names.antt =====
-- `sanitizeFileName` and `fileNameFromUrl` of src/filesystem/filesystem_service.cpp.
pub mod Safe
use cget.Prelude.{
  ℕ, Bool, true, false, ◌||◌, List, [], ◌∷◌, Text, str, text_eq, ltb, ◌==◌, if◌then◌else◌, map,
}

unfoldable pub is_reserved : Text → Bool
is_reserved name = text_eq name [] || text_eq name (str ".") || text_eq name (str "..")

-- `/`, `\` and the control characters become `_`.
unfoldable pub sanitize_char : ℕ → ℕ
sanitize_char c = if c == b'/' || c == 92 || ltb c 32 then b'_' else c

unfoldable pub sanitize_file_name : Text → Text
sanitize_file_name name =
    if is_reserved name
    then str "download"
    else let clean = map sanitize_char name in if is_reserved clean then str "download" else clean

-- `clean.erase(clean.find(c))`, when `c` is there.
unfoldable pub cut_at : ℕ → Text → Text
cut_at c [] = []
cut_at c (x ∷ xs) = if x == c then [] else x ∷ cut_at c xs

-- What follows the last `/`, or the whole text; `best` is what follows the last one so far.
unfoldable pub after_last_slash : Text → Text → Text
after_last_slash best [] = best
after_last_slash best (x ∷ xs) = after_last_slash (if x == b'/' then xs else best) xs

unfoldable pub file_name_from_url : Text → Text
file_name_from_url url =
    let clean = cut_at b'?' (cut_at b'#' url) in
    let name = after_last_slash clean clean in
    sanitize_file_name (if text_eq name [] then str "download" else name)
