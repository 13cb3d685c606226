-- ===== src/Core/Proto/Progress.antt =====
-- The handlers of requests take the kernel's answers in order and give back those that are left.
use ccml.Base.{
  ℕ, ◌≤◌, List, [], ◌∷◌, Option, none, some, length, leb, arith, Bool-cases, inl, inr, Bool,
}
use ccml.Utils.Logging.{behind, after_log, Logged, cc_check, ◌>>=◌, quiet}
use ccml.Utils.Str.{Text, str_eq}
use ccml.Core.Channel.{Bytes, Answer}
use ccml.Core.Channel.Progress.{Yields, Yields-weaken}
use ccml.Core.Message.{MessageReader, read_next_block, get_num_blocks, get_next_block_length}
use ccml.Core.Message.Progress.{BlockLeaves, read_next_block-Yields}
use ccml.Core.Proto.{
  Service, Services, find_service, dispatch, stored, read_into, read_string, handle_named,
  handle_request, parsed, respond, released, without_iovs, service,
}

abbrev pub Leaves : ℕ → List (List Bytes) × List Answer → Type 0
Leaves n h = length h.1 ≤ n

-- What a handler gives back are answers that it was given: it hands none out twice.
abbrev pub NoNewAnswers : Service → Type 0
NoNewAnswers server =
    (r : MessageReader) (answers : List Answer)
    → Yields (Leaves (length answers)) (server r answers)

after_log-Leaves {ℓ κ} :
    {A : Type ℓ} {B : Type κ} (Q : B → Type 0) (a : Logged A) (r : Option (Logged B))
    → Yields Q r
    → Yields Q (after_log a r)
after_log-Leaves Q a none q = tt
after_log-Leaves Q a (some b) q = q

-- Behind a piece of code that takes answers.
behind-Leaves {ℓ κ} :
    {A : Type ℓ} {B : Type κ} (P : A → Type 0) (Q : B → Type 0) (f : A → Option (Logged B))
    (o : Option (Logged A))
    → Yields P o
    → ((a : A) → P a → Yields Q (f a))
    → Yields Q (behind f o)
behind-Leaves P Q f none h k = tt
behind-Leaves P Q f (some a) h k = after_log-Leaves Q a (f a.value) (k a.value h)

read_into-Yields :
    (r : MessageReader) (answers : List Answer) (o : Option ℕ)
    → Yields (BlockLeaves (length answers)) (read_into r answers o)
unfolding read_into stored
read_into-Yields r answers none = tt
read_into-Yields r answers (some len) =
    behind-Leaves (BlockLeaves (length answers)) (BlockLeaves (length answers))
      (λ b. some (quiet (stored len b))) (read_next_block r answers)
      (read_next_block-Yields r answers) (λ b k. k)

read_string-Yields :
    (r : MessageReader) (answers : List Answer)
    → Yields (BlockLeaves (length answers)) (read_string r answers)
unfolding read_string
read_string-Yields r answers = read_into-Yields r answers (get_next_block_length r)

-- Every service that is registered has the property.
abbrev pub NoneNewIn : Services → Type 0
NoneNewIn [] = Unit {0}
NoneNewIn ((name, f) ∷ m) = NoNewAnswers f × NoneNewIn m

dispatch-Leaves :
    (name : Text) (m : Services) (r : MessageReader) (answers : List Answer)
    → NoneNewIn m
    → Yields (Leaves (length answers)) (dispatch (find_service name m) r answers)
unfolding find_service dispatch
dispatch-Leaves name [] r answers h = omega arith
dispatch-Leaves name ((k, f) ∷ m) r answers h = elim (Bool-cases (str_eq k name)) [
  | inl e ↦ rw e (h.0 r answers)
  | inr e ↦ rw e (dispatch-Leaves name m r answers h.1)
]

pub handle_request-NoNewAnswers : (m : Services) → NoneNewIn m → NoNewAnswers (handle_request m)
unfolding handle_request handle_named
handle_request-NoNewAnswers m h r answers =
    after_log-Leaves {0, 0} (Leaves (length answers))
      (cc_check (leb 2 (get_num_blocks r)) "ProtoServer.cpp" 19) _
      (behind-Leaves (BlockLeaves (length answers)) (Leaves (length answers)) (handle_named m)
        (read_string r answers) (read_string-Yields r answers)
        (λ b k.
          Yields-weaken (Leaves (length b.2)) (Leaves (length answers)) _ (λ a l. omega arith)
            (dispatch-Leaves b.0 m b.1 b.2 h)))

module _ {Request Response : Type 0} (parse : Bytes → Bool × Request)
    (serialize : Response → Bool × Bytes) where
  parsed-Leaves :
      (line : ℕ) (r : MessageReader) (answers : List Answer)
      → Yields {A = Request × MessageReader × List Answer}
          (λ x. length x.2 ≤ length answers)
          (behind (λ b. some (parsed parse serialize line b)) (read_string r answers))
  unfolding parsed
  parsed-Leaves line r answers =
      behind-Leaves (BlockLeaves (length answers)) (λ x. length x.2 ≤ length answers)
        (λ b. some (parsed parse serialize line b)) (read_string r answers)
        (read_string-Yields r answers) (λ b k. k)

  -- A service whose function does not get the reader, whatever it does.
  pub service-NoNewAnswers :
      (func : Request → Logged (List Response)) → NoNewAnswers (service parse serialize func)
  unfolding service
  service-NoNewAnswers func r answers =
      behind-Leaves {A = List (Response × List Bytes) × List Answer} (λ x. length x.1 ≤ n)
        (Leaves n) (respond parse serialize 116) _
        (behind-Leaves {A = Request × List Answer} (λ x. length x.1 ≤ n) (λ x. length x.1 ≤ n)
          (λ (request, rest).
            some (func request >>= λ xs. quiet (without_iovs parse serialize xs, rest)))
          _
          (behind-Leaves {A = Request × MessageReader × List Answer} (λ x. length x.2 ≤ n)
            (λ x. length x.1 ≤ n) (released parse serialize) _ (parsed-Leaves 111 r answers)
            (λ x k. k))
          (λ x k. k))
        (λ x k. k)
    where
      n : ℕ
      n = length answers
