-- ===== src/Core/Proto/Client.antt =====
-- What a client puts on the wire, and what it reads back.
use ccml.Base.{
  ◌≡◌, refl, ap, ◌∙◌, Bool, true, List, [], ◌∷◌, Option, none, some, length, map, leb, arith,
  length-map,
}
use ccml.Utils.Logging.{quiet, behind, cc_check}
use ccml.Utils.Logging.Quiet.{after_log-quiet}
use ccml.Core.Channel.{Bytes, Answer, Io, uio_maxiov}
use ccml.Core.Channel.Buffer.{Fills}
use ccml.Core.Channel.Rounds.{Serves}
use ccml.Core.Message.{
  MessageReader, get_num_blocks, header_size, header_bytes, words_bytes, message_iovs,
  message_length,
}
use ccml.Core.Message.Framing.{Fits, Sendable, write_message-Serves, read_message-write_message}
use ccml.Core.Proto.{received, with_reader, read_string, send, recv}
use ccml.Core.Proto.Dispatch.{reader_of, read_string_shifted}
use ccml.Core.Proto.Call.{stepped, read_string_last}
use ccml.Core.Server.Exchange.{frame}

module _ {Request Response : Type 0} (serialize : Request → Bool × Bytes)
    (parse : Bytes → Bool × Response) where
  pub send_lem :
      (name : Bytes) (request : Request) (proto : Bytes) (user : List Bytes) (ios : List Io)
      → serialize request ≡ (true, proto)
      → Sendable (name ∷ proto ∷ user)
      → Serves uio_maxiov
          (message_iovs (message_length (name ∷ proto ∷ user)) (name ∷ proto ∷ user))
          ios
      → send serialize parse name request user ios ≡ some (quiet (frame (name ∷ proto ∷ user)))
  unfolding send
  send_lem name request proto user ios good fits serves =
      rw (good, write_message-Serves (name ∷ proto ∷ user) ios fits serves) refl

  one_block :
      (out : Bytes) (iovs : List Bytes)
      → Fits (out ∷ iovs)
      → leb 1 (get_num_blocks (reader_of (out ∷ iovs))) ≡ true
  unfolding get_num_blocks
  one_block out iovs fits = ground (arith, length-map length iovs)

  -- Behind the frame of a response.
  recv_framed :
      (junk out : Bytes) (iovs : List Bytes) (answers middle rest : List Answer)
      → Fits (out ∷ iovs)
      → length junk ≡ header_size
      → Fills (header_bytes (message_length (out ∷ iovs)) (length (out ∷ iovs))) answers middle
      → Fills (words_bytes (map length (out ∷ iovs))) middle rest
      → recv serialize parse junk answers
        ≡ behind (received serialize parse) (read_string (reader_of (out ∷ iovs)) rest)
  unfolding recv with_reader
  recv_framed junk out iovs answers middle rest fits full head lengths =
      ap (behind (with_reader serialize parse))
        (read_message-write_message (out ∷ iovs) junk answers middle rest fits full head lengths)
      ∙ (after_log-quiet {A = Option MessageReader × List Answer}
            (some (reader_of (out ∷ iovs)), rest) _
          ∙ (ap
                (λ g.
                  behind
                    (λ _.
                      behind (received serialize parse) (read_string (reader_of (out ∷ iovs)) rest))
                    (some (cc_check g "ProtoServer.cpp" 63)))
                (one_block out iovs fits)
              ∙ after_log-quiet {0, 0} tt _))

  pub recv_lem :
      (junk out first : Bytes) (iovs : List Bytes) (response : Response)
      (answers middle rest last : List Answer)
      → Fits (out ∷ first ∷ iovs)
      → length junk ≡ header_size
      → Fills
          (header_bytes (message_length (out ∷ first ∷ iovs)) (length (out ∷ first ∷ iovs)))
          answers
          middle
      → Fills (words_bytes (map length (out ∷ first ∷ iovs))) middle rest
      → length first ≡ length out
      → Fills out rest last
      → parse out ≡ (true, response)
      → recv serialize parse junk answers
        ≡ some (quiet (response, stepped (reader_of (out ∷ first ∷ iovs)), last))
  unfolding received
  recv_lem junk out first iovs response answers middle rest last fits full head lengths sized fills
        p =
      rw
        (
          recv_framed junk out (first ∷ iovs) answers middle rest fits full head lengths,
          read_string_shifted (reader_of (out ∷ first ∷ iovs)) (ap some sized) fills,
          p,
        )
        refl

  -- A client cannot receive a response of one block, which is what every function of the kind without a
  -- reader sends: it reads past the array of lengths, which is undefined.
  pub recv_one_block :
      (junk out : Bytes) (answers middle rest : List Answer)
      → Fits (out ∷ [])
      → length junk ≡ header_size
      → Fills (header_bytes (message_length (out ∷ [])) 1) answers middle
      → Fills (words_bytes (length out ∷ [])) middle rest
      → recv serialize parse junk answers ≡ none
  recv_one_block junk out answers middle rest fits full head lengths =
      rw
        (
          recv_framed junk out [] answers middle rest fits full head lengths,
          read_string_last (reader_of (out ∷ [])) rest (omega arith),
        )
        refl
