-- ===== src/Tests/Conversations.antt =====
-- A connection with two calls at concrete blocks.
use ccml.Base.{◌≡◌, refl, List, [], ◌∷◌, ◌++◌, some, arith}
use ccml.Utils.Logging.{LogMessage, cc_log, info, ◌>>=◌, ◌>>◌, quiet}
use ccml.Core.Channel.{Bytes, Answer, got, io}
use ccml.Core.Message.{header_bytes, words_bytes}
use ccml.Core.Proto.{delete_argument, handle_request}
use ccml.Core.Proto.Dispatch.{reader_of}
use ccml.Core.Proto.Call.{stepped, handle_request_call}
use ccml.Core.Server.{finished, run}
use ccml.Core.Server.Exchange.{frame, Conversation, closes, asks, run-Conversation}
use ccml.Tests.Calls.{
  same, answer, functions, reply, no_header, delivered, whole_part, reply-Serves, found,
}

-- A call of the function `ab` with an empty block in front, so that the server reads all of its bytes.
abbrev polite : List Bytes
polite = [] ∷ (97 ∷ 98 ∷ []) ∷ (1 ∷ 2 ∷ []) ∷ []

abbrev polite_in : List Answer → List Answer
polite_in next = got (97 ∷ 98 ∷ []) ∷ got (1 ∷ 2 ∷ []) ∷ next

-- What the destructor of its reader logs, which was not read to its end.
abbrev unfinished : List LogMessage
unfinished = (delete_argument (some (stepped (stepped (reader_of polite))))).log

polite_served :
    (next : List Answer)
    → handle_request functions (reader_of polite) (polite_in next)
      ≡ some (record { log = unfinished; value = (reply ∷ [], next) })
polite_served next =
    handle_request_call same same functions answer (λ bytes. bytes) [] (97 ∷ 98 ∷ []) (1 ∷ 2 ∷ [])
      (97 ∷ 98 ∷ []) (1 ∷ 2 ∷ []) [] (1 ∷ 2 ∷ []) ((1 ∷ 2 ∷ [], (5 ∷ 6 ∷ []) ∷ []) ∷ []) []
      (some (stepped (stepped (reader_of polite)))) (λ bytes. refl) refl (omega arith) refl refl
      found (whole_part (97 ∷ 98 ∷ []) _ (omega arith)) (whole_part (1 ∷ 2 ∷ []) next (omega arith))
      refl

-- Two calls and the end of the stream.
abbrev once : List Answer
once = delivered polite (polite_in (got [] ∷ []))

abbrev twice : List Answer
twice = delivered polite (polite_in once)

twice-Conversation :
    Conversation
      (handle_request functions)
      (λ round. no_header)
      (λ round write. io 36 ∷ [])
      3
      twice
      (unfinished ++ (unfinished ++ []))
      (reply ∷ reply ∷ [])
unfolding header_bytes words_bytes
twice-Conversation =
    asks 2 polite unfinished (unfinished ++ []) (reply ∷ []) (reply ∷ []) twice _ (polite_in once)
      once (omega arith) refl (whole_part _ _ (omega arith)) (whole_part _ _ (omega arith))
      (polite_served once) ((omega arith, omega arith), reply-Serves, tt)
      (asks 1 polite unfinished [] (reply ∷ []) [] once _ (polite_in (got [] ∷ [])) (got [] ∷ [])
        (omega arith) refl (whole_part _ _ (omega arith)) (whole_part _ _ (omega arith))
        (polite_served (got [] ∷ [])) ((omega arith, omega arith), reply-Serves, tt) (closes 0 []))

run-Conversation_example :
    run (handle_request functions) (λ round. no_header) (λ round write. io 36 ∷ []) 3 twice
    ≡ finished (
        cc_log info "LightServer.cpp" 27
        >> (record {
          log = unfinished ++ (unfinished ++ []);
          value = frame reply ∷ frame reply ∷ [];
        }
            >>= λ wire. cc_log info "LightServer.cpp" 44 >> quiet wire))
run-Conversation_example =
    run-Conversation (handle_request functions) (λ round. no_header) (λ round write. io 36 ∷ []) 3
      twice (unfinished ++ (unfinished ++ [])) (reply ∷ reply ∷ []) twice-Conversation
