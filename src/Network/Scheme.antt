-- ===== src/Network/Scheme.antt =====
-- src/network/protocol_registry.cpp: the scheme of a URL and whether it is supported. The protocols that
-- the libcurl build has are a parameter.
use cget.Prelude.{
  ℕ, ◌+◌, Bool, true, false, ◌&&◌, ◌||◌, not, Option, none, some, List, [], ◌∷◌, ◌++◌, Text, str,
  text_eq, leb, ◌==◌, if◌then◌else◌, map, any_of,
}
use cget.Core.Errors.{Result, ok, throw, ErrorCode}

-- `std::tolower` in the C locale.
unfoldable pub to_lower : ℕ → ℕ
to_lower c = if leb b'A' c && leb c b'Z' then c + 32 else c

unfoldable pub lower : Text → Text
lower value = map to_lower value

-- `value.rfind(prefix, 0) == 0`.
unfoldable pub starts_with : Text → Text → Bool
starts_with [] value = true
starts_with (p ∷ ps) [] = false
starts_with (p ∷ ps) (c ∷ cs) = p == c && starts_with ps cs

abbrev pub prepend : ℕ → Option Text → Option Text
prepend c none = none
prepend c (some cs) = some (c ∷ cs)

-- `url.substr(0, url.find(separator))`, when the separator is there.
unfoldable pub before : Text → Text → Option Text
before separator [] = if text_eq separator [] then some [] else none
before separator (c ∷ cs) =
    let rest = before separator cs in
    if starts_with separator (c ∷ cs) then some [] else prepend c rest

-- `ProtocolRegistry::schemeOf`.
unfoldable pub scheme_of : Text → Text
scheme_of url = elim (before (str "://") url) [ none ↦ [] | some scheme ↦ lower scheme ]

unfoldable pub is_known_download_scheme : Text → Bool
is_known_download_scheme scheme =
    text_eq scheme (str "http")
    || text_eq scheme (str "https")
    || text_eq scheme (str "ftp")
    || text_eq scheme (str "ftps")
    || text_eq scheme (str "sftp")
    || text_eq scheme (str "scp")

-- `available.find(scheme) != available.end()`.
unfoldable pub contains : List Text → Text → Bool
contains available scheme = any_of (text_eq scheme) available

-- `isSupportedScheme`; `curl_protocols` are the names that libcurl gives, in lower case.
unfoldable pub is_supported_scheme : List Text → Text → Bool
is_supported_scheme curl_protocols scheme =
    let normalized = lower scheme in
    is_known_download_scheme normalized && contains curl_protocols normalized

-- The guards of `ProtocolRegistry::create`, which then makes the handler; `supported` is the text of
-- the supported schemes.
unfoldable pub create : List Text → Text → Text → Result (Unit {0})
create curl_protocols supported url =
    let scheme = scheme_of url in
    if text_eq scheme []
    then throw ErrorCode.invalid_url_error (str "URL must include a supported scheme")
    else if not (is_known_download_scheme scheme)
    then throw ErrorCode.invalid_url_error (str "unsupported URL scheme: " ++ scheme)
    else if not (is_supported_scheme curl_protocols scheme)
    then throw ErrorCode.invalid_url_error (
        str "scheme '"
        ++ (scheme
            ++ (str "' is not available in this libcurl build; supported here: " ++ supported)))
    else ok tt

unfoldable pub is_http_url : Text → Bool
is_http_url url = text_eq (scheme_of url) (str "http") || text_eq (scheme_of url) (str "https")

unfoldable pub range_can_use_success_without_http206 : Text → Bool
range_can_use_success_without_http206 url =
    let scheme = scheme_of url in
    text_eq scheme (str "ftp")
    || text_eq scheme (str "ftps")
    || text_eq scheme (str "sftp")
    || text_eq scheme (str "scp")
