-- ===== src/Core/Server/Session.antt =====
-- The worker's loop ends.
use ccml.Base.{ℕ, zero, suc, ◌<◌, ◌≢◌, refl, List, [], Option, none, some, length, arith}
use ccml.Utils.Logging.{LogMessage, Logged}
use ccml.Core.Channel.{Bytes, Answer, Io}
use ccml.Core.Channel.Progress.{Yields, Yields-weaken}
use ccml.Core.Message.{MessageReader, read_message}
use ccml.Core.Message.Progress.{MessageLeaves, read_message-Yields}
use ccml.Core.Proto.{Handled, Service, Services, handle_request}
use ccml.Core.Proto.Progress.{Leaves, NoNewAnswers, NoneNewIn, handle_request-NoNewAnswers}
use ccml.Core.Server.{
  Served, finished, waits, out_of_fuel, responses, continued, answered, handled, message_read,
  requested, worker_loop, info_first, info_last, run,
}

continued-fuel :
    (log : List LogMessage) (wire : List Bytes) (s : Served)
    → s ≢ out_of_fuel
    → continued log wire s ≢ out_of_fuel
unfolding continued
continued-fuel log wire (finished r) h = cc
continued-fuel log wire waits h = cc
continued-fuel log wire out_of_fuel h = absurd (h refl)

answered-fuel :
    (o : Option (Logged (List Bytes))) (rest : List Answer) (loop : List Answer → Served)
    → loop rest ≢ out_of_fuel
    → answered o rest loop ≢ out_of_fuel
unfolding answered
answered-fuel none rest loop h = cc
answered-fuel (some w) rest loop h = continued-fuel w.log w.value (loop rest) h

-- The loop ends on less than `n` answers.
abbrev Goes : ℕ → (List Answer → Served) → Type 0
Goes n loop = (rest : List Answer) → length rest < n → loop rest ≢ out_of_fuel

handled-fuel :
    (ios : ℕ → List Io) (k n : ℕ) (o : Handled) (loop : List Answer → Served)
    → Yields (λ h. length h.1 < n) o
    → Goes n loop
    → handled ios k o loop ≢ out_of_fuel
unfolding handled
handled-fuel ios k n none loop h go = cc
handled-fuel ios k n (some r) loop h go =
    continued-fuel r.log [] _
      (answered-fuel (responses ios k r.value.0) r.value.1 loop (go r.value.1 h))

message_read-fuel :
    (server : Service) (ios : ℕ → List Io) (n : ℕ) (m : Option MessageReader × List Answer)
    (loop : List Answer → Served)
    → NoNewAnswers server
    → MessageLeaves n m
    → Goes n loop
    → message_read server ios m loop ≢ out_of_fuel
unfolding message_read
message_read-fuel server ios n (none, rest) loop s h go = cc
message_read-fuel server ios n (some r, rest) loop s h go =
    handled-fuel ios 0 n (server r rest) loop
      (Yields-weaken (Leaves (length rest)) (λ h. length h.1 < n) (server r rest)
        (λ a k. omega arith) (s r rest))
      go

requested-fuel :
    (server : Service) (ios : ℕ → List Io) (n : ℕ)
    (o : Option (Logged (Option MessageReader × List Answer))) (loop : List Answer → Served)
    → NoNewAnswers server
    → Yields (MessageLeaves n) o
    → Goes n loop
    → requested server ios o loop ≢ out_of_fuel
unfolding requested
requested-fuel server ios n none loop s h go = cc
requested-fuel server ios n (some m) loop s h go =
    continued-fuel m.log [] _ (message_read-fuel server ios n m.value loop s h go)

worker_loop-ends :
    (server : Service) (junk : ℕ → Bytes) (ios : ℕ → ℕ → List Io) (fuel : ℕ) (answers : List Answer)
    → NoNewAnswers server
    → length answers < fuel
    → worker_loop server junk ios fuel answers ≢ out_of_fuel
unfolding worker_loop
worker_loop-ends server junk ios zero answers s h = absurd (omega arith)
worker_loop-ends server junk ios (suc fuel) answers s h =
    requested-fuel server (ios fuel) (length answers) (read_message (junk fuel) answers)
      (λ rest. worker_loop server junk ios fuel rest) s (read_message-Yields (junk fuel) answers)
      (λ rest k. worker_loop-ends server junk ios fuel rest s (omega arith))

info-ends :
    (first last : ℕ) (s : Served)
    → s ≢ out_of_fuel
    → info_first first (info_last last s) ≢ out_of_fuel
unfolding info_first info_last
info-ends first last (finished r) h = cc
info-ends first last waits h = cc
info-ends first last out_of_fuel h = absurd (h refl)

-- The fuel of a worker of a protobuf server: one round for each of the kernel's answers and one more are
-- enough, whatever they are. The services that are registered hand no answer out twice.
pub run-ends :
    (m : Services) (junk : ℕ → Bytes) (ios : ℕ → ℕ → List Io) (fuel : ℕ) (answers : List Answer)
    → NoneNewIn m
    → length answers < fuel
    → run (handle_request m) junk ios fuel answers ≢ out_of_fuel
unfolding run
run-ends m junk ios fuel answers h k =
    info-ends 27 44 _ (
      worker_loop-ends (handle_request m) junk ios fuel answers (handle_request-NoNewAnswers m h) k)
