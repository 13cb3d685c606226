-- ===== src/Core/ServerMain/Slots.antt =====
-- Every slot of the program's servers is filled, once.
use ccml.Base.{
  ℕ, zero, suc, ◌+◌, ◌*◌, ◌≡◌, refl, sym, ap, ◌∙◌, Bool, List, [], ◌∷◌, ◌++◌, append_assoc,
  append-nil, Option, none, some, length, length-append, get_elem?, arith,
}
use ccml.Utils.Logging.Quiet.{result, bound, result-behind}
use ccml.Utils.Str.{Text}
use ccml.Core.ServerMain.{
  ServerAt, Slots, empty_slots, before_slot, set_slot, join_servers, started, port_loop,
  device_round, device_loop,
}

-- The slots of these servers, and so many that are empty.
abbrev pub filled : List ServerAt → ℕ → Slots
filled [] n = empty_slots n
filled (s ∷ servers) n = some s ∷ filled servers n

set_slot-filled :
    (servers : List ServerAt) (n : ℕ) (s : ServerAt)
    → set_slot (length servers) s (filled servers (suc n)) ≡ some (filled (servers ++ (s ∷ [])) n)
unfolding set_slot empty_slots before_slot
set_slot-filled [] n s = refl
set_slot-filled (x ∷ servers) n s = ap (before_slot (some x)) (set_slot-filled servers n s)

set_slot-at :
    (servers : List ServerAt) (n i : ℕ) (s : ServerAt)
    → length servers ≡ i
    → set_slot i s (filled servers (suc n)) ≡ some (filled (servers ++ (s ∷ [])) n)
set_slot-at servers n i s h =
    ap (λ j. set_slot j s (filled servers (suc n))) (sym h) ∙ set_slot-filled servers n s

pub join_servers-filled : (servers : List ServerAt) → join_servers (filled servers 0) ≡ some servers
unfolding join_servers empty_slots
join_servers-filled [] = refl
join_servers-filled (s ∷ servers) = rw (join_servers-filled servers) refl

-- The servers of the ports from `i` on, so many, without devices.
abbrev pub port_servers : ℕ → ℕ → ℕ → List ServerAt
port_servers port i zero = []
port_servers port i (suc k) = ([], port + i) ∷ port_servers port (suc i) k

-- The same server so many times.
abbrev pub copies : ℕ → ServerAt → List ServerAt
copies zero s = []
copies (suc k) s = s ∷ copies k s

-- `k + n`, by its first argument.
abbrev pub later : ℕ → ℕ → ℕ
later zero n = n
later (suc k) n = suc (later k n)

pub later_lem : (k n : ℕ) → later k n ≡ k + n
later_lem zero n = omega arith
later_lem (suc k) n = omega (arith, later_lem k n)

-- `k * n`
abbrev pub times : ℕ → ℕ → ℕ
times zero n = 0
times (suc k) n = later n (times k n)

pub times_lem : (k n : ℕ) → times k n ≡ k * n
times_lem zero n = omega arith
times_lem (suc k) n = omega (arith, later_lem n (times k n), times_lem k n)

pub length-copies : (k : ℕ) (s : ServerAt) → length (copies k s) ≡ k
length-copies zero s = refl
length-copies (suc k) s = ap suc (length-copies k s)

module _ (init : ServerAt → Bool) (ip_addr : Text → Text) where
  started-result :
      (line : ℕ) (s : ServerAt) (o : Option Slots) → result (started init ip_addr line s o) ≡ o
  unfolding started
  started-result line s none = refl
  started-result line s (some slots) = refl

  pub port_loop-filled :
      (port i k : ℕ) (servers : List ServerAt)
      → length servers ≡ i
      → result (port_loop init ip_addr port i k (filled servers k))
        ≡ some (filled (servers ++ port_servers port i k) 0)
  unfolding port_loop
  port_loop-filled port i zero servers h = ap (λ s. some (filled s 0)) (sym (append-nil servers))
  port_loop-filled port i (suc k) servers h =
      result-behind _ (started init ip_addr 28 s (set_slot i s (filled servers (suc k))))
      ∙ (ap (bound (λ slots. result (port_loop init ip_addr port (suc i) k slots))) (
            started-result 28 s (set_slot i s (filled servers (suc k)))
            ∙ set_slot-at servers k i s h)
          ∙ (port_loop-filled port (suc i) k (servers ++ (s ∷ []))
                (omega (arith, length-append servers (s ∷ [])))
              ∙ ap (λ all. some (filled all 0))
                  (append_assoc servers (s ∷ []) (port_servers port (suc i) k))))
    where
      s : ServerAt
      s = ([], port + i)

  pub device_loop-filled :
      (port i : ℕ) (devices : List Text) (device : Text) (j k n : ℕ) (servers : List ServerAt)
      → get_elem? devices i ≡ some device
      → length servers ≡ i * length devices + j
      → result (device_loop init ip_addr port i devices j k (filled servers (later k n)))
        ≡ some (filled (servers ++ copies k (ip_addr device, port + i)) n)
  unfolding device_loop device_round
  device_loop-filled port i devices device j zero n servers d h =
      ap (λ s. some (filled s n)) (sym (append-nil servers))
  device_loop-filled port i devices device j (suc k) n servers d h =
      result-behind _ (
        device_round init ip_addr (port + i) (get_elem? devices i) (i * length devices + j)
          (filled servers (later (suc k) n)))
      ∙ (ap (bound (λ slots. result (device_loop init ip_addr port i devices (suc j) k slots))) (
            ap
              (λ o. result (
                device_round init ip_addr (port + i) o (i * length devices + j)
                  (filled servers (later (suc k) n))))
              d
            ∙ (started-result 42 s
                  (set_slot (i * length devices + j) s (filled servers (later (suc k) n)))
                ∙ set_slot-at servers (later k n) (i * length devices + j) s h))
          ∙ (device_loop-filled port i devices device (suc j) k n (servers ++ (s ∷ [])) d
                (omega (arith, length-append servers (s ∷ [])))
              ∙ ap (λ all. some (filled all n)) (append_assoc servers (s ∷ []) (copies k s))))
    where
      s : ServerAt
      s = (ip_addr device, port + i)

  -- The servers of the devices from the `i`-th on: for each as many as there are devices.
  abbrev pub device_servers : ℕ → ℕ → ℕ → List Text → List ServerAt
  device_servers port i count [] = []
  device_servers port i count (device ∷ devices) =
      copies count (ip_addr device, port + i) ++ device_servers port (suc i) count devices
