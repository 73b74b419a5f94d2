-- ===== src/Rpc/Replies.antt =====
-- What `rpcexec` of src/nectarapi/graphenerpc.py reads off a reply, and which exception it makes of an
-- error.
use hive_nectar.Prelude.{
  ℕ, ◌+◌, ◌==◌, leb, Bool, true, false, not, ◌&&◌, ◌||◌, Option, none, some, List, [], ◌∷◌, map,
  Result, ok, err, ◌>>=◌, Error, if◌then◌else◌, attribute_error, rpc_error, rpc_error_do_retry,
  invalid_parameters, no_method_with_name, no_api_with_name,
}
use hive_nectar.Prelude.Bytes.{Text, codes}
use Prim.Native.String.{String}
use hive_nectar.Values.{
  Value, a_text, a_list, a_dict, Values, no_values, value_and, Dict, get_or, lookup, to_list,
  traverse,
}

unfoldable pub list_of : List Value → Values
list_of [] = no_values
list_of (v ∷ vs) = value_and v (list_of vs)

-- `text.lower()`, on ASCII.
abbrev pub lower : ℕ → ℕ
lower c = if leb 65 c && leb c 90 then c + 32 else c

unfoldable pub starts : Text → Text → Bool
starts [] text = true
starts (p ∷ ps) [] = false
starts (p ∷ ps) (c ∷ cs) = (p == c) && starts ps cs

-- `part in text`.
unfoldable pub contains : Text → Text → Bool
contains part [] = starts part []
contains part (c ∷ cs) = starts part (c ∷ cs) || contains part cs

-- `\w`, on ASCII.
unfoldable pub is_word : ℕ → Bool
is_word c =
    (leb 48 c && leb c 57) || ((leb 65 c && leb c 90) || ((leb 97 c && leb c 122) || (c == 95)))

unfoldable pub ends_word : Text → Text → Bool
ends_word [] [] = true
ends_word [] (c ∷ cs) = not (is_word c)
ends_word (p ∷ ps) [] = false
ends_word (p ∷ ps) (c ∷ cs) = (p == c) && ends_word ps cs

-- `re.search(r"\bword\b", text)`, with whether the character before is one of a word.
unfoldable pub has_word : Text → Bool → Text → Bool
has_word word inside [] = not inside && ends_word word []
has_word word inside (c ∷ cs) =
    (not inside && ends_word word (c ∷ cs)) || has_word word (is_word c) cs

-- A line of `_check_for_server_error`: the phrase, the code, whether the code stands as a word, and whether
-- the error is one to try again.
pub record Case : Type 0 where
  pub phrase : String
  pub code : String
  pub bounded : Bool
  pub retry : Bool

abbrev pub server_case : String → String → Bool → Bool → Case
server_case phrase code bounded retry = record {
  phrase = phrase;
  code = code;
  bounded = bounded;
  retry = retry;
}

abbrev pub server_cases : List Case
server_cases =
    server_case "Internal Server Error" "500" true true
    ∷ server_case "Not Implemented" "501" false false
    ∷ server_case "Bad Gateway" "502" false true
    ∷ server_case "Too Many Requests" "429" true true
    ∷ server_case "Service Unavailable" "503" true true
    ∷ server_case "Gateway Timeout" "504" true true
    ∷ server_case "HTTP Version not supported" "505" true false
    ∷ server_case "Proxy Authentication Required" "407" true true
    ∷ server_case "Request Timeout" "408" true true
    ∷ server_case "Conflict" "409" true true
    ∷ server_case "Gone" "410" true true
    ∷ server_case "Length Required" "411" true true
    ∷ server_case "Precondition Failed" "412" true true
    ∷ server_case "Request Entity Too Large" "413" true true
    ∷ server_case "Request-URI Too Long" "414" true true
    ∷ server_case "Unsupported Media Type" "415" true true
    ∷ server_case "Requested Range Not Satisfiable" "416" true true
    ∷ server_case "Expectation Failed" "417" true true
    ∷ server_case "Unprocessable Entity" "422" true true
    ∷ server_case "Locked" "423" true true
    ∷ server_case "Failed Dependency" "424" true true
    ∷ server_case "Upgrade Required" "426" true true
    ∷ server_case "Precondition Required" "428" true true
    ∷ server_case "Request Header Fields Too Large" "431" true true
    ∷ server_case "Loop Detected" "508" true false
    ∷ server_case "Bandwidth Limit Exceeded" "509" true false
    ∷ server_case "Not Extended" "510" true false
    ∷ server_case "Network Authentication Required" "511" true false
    ∷ []

unfoldable pub matches : Text → Case → Bool
matches reply case =
    contains (codes case.phrase) reply
    || (if case.bounded
        then has_word (codes case.code) false reply
        else contains (codes case.code) reply)

unfoldable pub error_in : Text → List Case → Error
error_in reply [] = rpc_error
error_in reply (case ∷ cases) =
    let rest = error_in reply cases in
    if matches reply case then if case.retry then rpc_error_do_retry else rpc_error else rest

-- `_check_for_server_error`, of the text of the dictionary that it is given.
unfoldable pub check_for_server_error : Text → Error
check_for_server_error reply_str = error_in reply_str server_cases

-- `_raise_for_error`.
unfoldable pub raise_for_error : Text → Error
raise_for_error error_message =
    let lowered = map lower error_message in
    if contains (codes "invalid parameter") lowered
    then invalid_parameters
    else if contains (codes "could not find method") lowered
        || contains (codes "no method with name") lowered
    then no_method_with_name
    else if contains (codes "could not find api") lowered
        || contains (codes "no api with name") lowered
    then no_api_with_name
    else rpc_error

abbrev pub error_of_message : Value → Error
error_of_message (a_text message) = raise_for_error message
error_of_message message = attribute_error

-- The message of an error is its detail, or else its message.
unfoldable pub error_of : Dict → Error
error_of e =
    error_of_message
      (get_or e (codes "detail") (get_or e (codes "message") (a_text (codes "Unknown error"))))

-- An element of a batch.
unfoldable pub item_result : Dict → Option Value → Option Value → Result Value
item_result r (some (a_dict e)) result = err (error_of e)
item_result r (some error') result = err attribute_error
item_result r none (some result) = ok result
item_result r none none = ok (a_dict r)

unfoldable pub read_item : Value → Result Value
read_item (a_dict r) = item_result r (lookup r (codes "error")) (lookup r (codes "result"))
read_item r = ok r

-- What is read: a result, after which the count of the call is reset, or, when the error of the reply is
-- not a dictionary, nothing.
pub data Reading : Type 0 where
  result_of : Value → Reading
  no_result : Reading

unfoldable pub single_result : Option Value → Option Value → Result Reading
single_result (some (a_dict e)) result = err (error_of e)
single_result (some error') result = ok no_result
single_result none (some result) = ok (result_of result)
single_result none none = err rpc_error

unfoldable pub read_results : List Value → Result Reading
read_results rs = do results ← traverse read_item rs; ok (result_of (a_list (list_of results)))

unfoldable pub read_reply : Value → Result Reading
read_reply (a_dict ret) = single_result (lookup ret (codes "error")) (lookup ret (codes "result"))
read_reply (a_list ret) = read_results (to_list ret)
read_reply ret = err rpc_error
