-- ===== src/Network/Http.antt =====
-- src/network/http_protocol_handler.cpp: what the handler does with a transfer that libcurl performs.
-- The transfer itself, and so the server, is a parameter of the functions: it says which status it
-- reports, which blocks it hands to the write callback and how it ends.
use cget.Prelude.{
  ℕ, Bool, false, ◌&&◌, ◌||◌, not, Option, none, some, List, [], ◌∷◌, ◌++◌, Text, str, ltb, leb,
  ◌==◌, if◌then◌else◌,
}
use cget.Prelude.Decimal.{to_string}
use cget.Core.Types.{RemoteFileInfo}
use cget.Core.Errors.{Result, ok, err, ◌>>◌, CgetError, throw, ErrorCode}
use cget.Network.Scheme.{is_http_url, range_can_use_success_without_http206}

-- One call of the write callback; `flush` says whether the interval between two saves has passed.
pub record Block : Type 0 where
  pub bytes : List ℕ
  pub flush : Bool

-- `CURLcode`: success, `CURLE_OPERATION_TIMEDOUT`, or another error, with the message.
pub data CurlResult : Type 0 where
  curl_ok : CurlResult
  curl_timed_out : Text → CurlResult
  curl_failed : Text → CurlResult

-- A transfer: the status in the headers (0 when there is no `HTTP/` line), the blocks of the body,
-- the end, and the response code asked for afterwards.
pub record Transfer : Type 0 where
  pub header_status : ℕ
  pub blocks : List Block
  pub result : CurlResult
  pub response_code : ℕ

unfoldable pub throw_for_http_status : ℕ → Result (Unit {0})
throw_for_http_status status_code =
    if status_code == 416
    then throw ErrorCode.metadata_mismatch_error
        (str "server returned HTTP 416 Range Not Satisfiable")
    else if status_code == 403 || status_code == 404
    then throw ErrorCode.http_status_error (str "server returned HTTP " ++ to_string status_code)
    else if leb 400 status_code
    then throw ErrorCode.http_status_error (str "server returned HTTP " ++ to_string status_code)
    else ok tt

-- `CURLcode` other than success as an exception.
unfoldable pub throw_for_curl : CurlResult → Result (Unit {0})
throw_for_curl curl_ok = ok tt
throw_for_curl (curl_timed_out message) = throw ErrorCode.timeout_error message
throw_for_curl (curl_failed message) = throw ErrorCode.network_error message

-- The message of `CURLE_WRITE_ERROR`, with which a transfer ends when the callback refuses a block.
abbrev pub write_error : CurlResult
write_error = curl_failed (str "Failed writing received data to disk/application")

-- How `curl_easy_perform` ended: the exception that the callback kept, if any, and the code.
pub record Performed : Type 0 where
  pub exception : Option CgetError
  pub code : CurlResult

-- `HttpProtocolHandler::downloadRange` after the transfer, by the kept exception.
unfoldable pub range_result : Text → ℕ → Performed → Result (Unit {0})
range_result url response_code p = elim p.exception [
  | some e ↦ err e
  | none ↦
      if is_http_url url && response_code == 200
      then throw ErrorCode.range_not_supported_error (str "server ignored Range request")
      else throw_for_curl p.code
        >> (if range_can_use_success_without_http206 url
            then ok tt
            else if response_code == 206
            then ok tt
            else throw_for_http_status response_code
              >> throw ErrorCode.http_status_error
                  (str "expected HTTP 206, got HTTP " ++ to_string response_code))
]

-- `HttpProtocolHandler::downloadSingle` after the transfer.
unfoldable pub single_result : ℕ → Performed → Result (Unit {0})
single_result response_code p = elim p.exception [
  | some e ↦ err e
  | none ↦ throw_for_curl p.code >> throw_for_http_status response_code
]

module _ {S : Type 0} (deliver : Block → S → S × Result (Unit {0})) where
  -- `writeCallback` on each block. `deliver` is the write callback of the caller and then the
  -- progress callback; `reject` is `rejectRangeFallback && statusCode == 200`.
  unfoldable pub perform : Bool → CurlResult → List Block → S → S × Performed
  perform reject end [] s = (s, record { exception = none; code = end })
  perform reject end (b ∷ bs) s =
      if reject
      then (s, record { exception = none; code = write_error })
      else let (s', kept) = deliver b s in
        elim kept [
          | ok _ ↦ perform reject end bs s'
          | err e ↦ (s', record { exception = some e; code = write_error })
        ]

  -- `HttpProtocolHandler::downloadRange`.
  unfoldable pub download_range : Text → Transfer → S → S × Result (Unit {0})
  download_range url t s =
      let (s', p) = perform (t.header_status == 200) t.result t.blocks s in
      (s', range_result url t.response_code p)

  -- `HttpProtocolHandler::downloadSingle`.
  unfoldable pub download_single : Transfer → S → S × Result (Unit {0})
  download_single t s =
      let (s', p) = perform false t.result t.blocks s in (s', single_result t.response_code p)

-- What the header callback of a metadata request has gathered, and what libcurl says afterwards.
pub record HeaderContext : Type 0 where
  pub accept_ranges : Bool
  pub etag : Option Text
  pub last_modified : Option Text

pub record MetadataReply : Type 0 where
  pub result : CurlResult
  pub response_code : ℕ
  pub headers : HeaderContext
  pub content_length : Option ℕ
  pub effective_url : Option Text

abbrev pub value_or : Text → Option Text → Text
value_or default none = default
value_or default (some value) = value

abbrev pub length_or_zero : Option ℕ → ℕ
length_or_zero none = 0
length_or_zero (some n) = n

-- `HttpProtocolHandler::fetchMetadata`; `content_length` is none when libcurl does not know it (-1).
unfoldable pub fetch_metadata : Text → MetadataReply → Result RemoteFileInfo
fetch_metadata url reply =
    throw_for_curl reply.result
    >> (throw_for_http_status reply.response_code
        >> (let file_size = length_or_zero reply.content_length in
            ok (record {
              file_size = file_size;
              supports_range =
                  ltb 0 file_size && (reply.headers.accept_ranges || not (is_http_url url));
              etag = reply.headers.etag;
              last_modified = reply.headers.last_modified;
              final_url = value_or url reply.effective_url;
            })))
