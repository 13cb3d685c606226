-- ===== src/Core/ServerMain/Devices.antt =====
-- The servers that `main` joins.
use ccml.Base.{
  ℕ, zero, suc, ◌+◌, ◌*◌, ◌≤◌, ◌<◌, ◌≡◌, refl, sym, ap, ◌∙◌, Bool, List, [], ◌∷◌, ◌++◌,
  append_assoc, append-nil, Option, none, some, length, length-append, length-take, take, drop,
  get_elem?, arith, ◌⊎◌, Bool-cases, inl, inr, ◌==◌,
}
use ccml.Utils.Logging.{Logged, behind, after_log}
use ccml.Utils.Logging.Quiet.{result, bound, result-behind}
use ccml.Utils.Str.{Text, split}
use ccml.Core.ServerMain.{
  joined_all, ServerAt, Slots, empty_slots, joined, device_round, device_loop, nic_loop,
  with_devices, start_servers, MainFlags, main,
}
use ccml.Core.ServerMain.Slots.{
  filled, later, times, times_lem, length-copies, copies, port_servers, join_servers-filled,
  port_loop-filled, device_loop-filled, device_servers,
}

take-drop {ℓ} : {A : Type ℓ} (n : ℕ) (xs : List A) → take n xs ++ drop n xs ≡ xs
take-drop zero xs = refl
take-drop (suc n) [] = refl
take-drop (suc n) (x ∷ xs) = ap (◌∷◌ x) (take-drop n xs)

get_elem?-end {ℓ} : {A : Type ℓ} (xs : List A) (i : ℕ) → length xs ≤ i → get_elem? xs i ≡ none
get_elem?-end [] i h = refl
get_elem?-end (x ∷ xs) zero h = absurd (omega arith)
get_elem?-end (x ∷ xs) (suc i) h = get_elem?-end xs i (omega arith)

after_log-none {ℓ κ} :
    {A : Type ℓ} {B : Type κ} (a : Logged A) (o : Option (Logged B))
    → o ≡ none
    → after_log a o ≡ none
after_log-none a none h = refl
after_log-none a (some b) h = cc

behind-none {ℓ κ} :
    {A : Type ℓ} {B : Type κ} (f : A → Option (Logged B))
    → ((a : A) → f a ≡ none)
    → (o : Option (Logged A)) → behind f o ≡ none
behind-none f h none = refl
behind-none f h (some a) = after_log-none a (f a.value) (h a.value)

get_elem?-middle {ℓ} :
    {A : Type ℓ} (past : List A) (x : A) (after : List A)
    → get_elem? (past ++ (x ∷ after)) (length past) ≡ some x
get_elem?-middle [] x after = refl
get_elem?-middle (y ∷ past) x after = get_elem?-middle past x after

≤-or-< : (m n : ℕ) → (m ≤ n) ⊎ (n < m)
≤-or-< m n = omega arith

module _ (init : ServerAt → Bool) (ip_addr : Text → Text) where
  nic_loop-filled :
      (port i k : ℕ) (devices past now after : List Text) (servers : List ServerAt)
      → devices ≡ past ++ (now ++ after)
      → length past ≡ i
      → length now ≡ k
      → length servers ≡ i * length devices
      → result (nic_loop init ip_addr port i devices k (filled servers (times k (length devices))))
        ≡ some (filled (servers ++ device_servers init ip_addr port i (length devices) now) 0)
  unfolding nic_loop
  nic_loop-filled port i zero devices past [] after servers e p n h =
      ap (λ s. some (filled s 0)) (sym (append-nil servers))
  nic_loop-filled port i zero devices past (x ∷ now) after servers e p n h = absurd (omega arith)
  nic_loop-filled port i (suc k) devices past [] after servers e p n h = absurd (omega arith)
  nic_loop-filled port i (suc k) devices past (x ∷ now) after servers e p n h =
      result-behind _
        (device_loop init ip_addr port i devices 0 d (filled servers (later d (times k d))))
      ∙ (ap (bound (λ slots. result (nic_loop init ip_addr port (suc i) devices k slots))) (
            device_loop-filled init ip_addr port i devices x 0 d (times k d) servers
              (ap (λ l. get_elem? l i) e
                ∙ (ap (get_elem? (past ++ (x ∷ (now ++ after)))) (sym p)
                    ∙ get_elem?-middle past x (now ++ after)))
              (omega arith))
          ∙ (nic_loop-filled port (suc i) k devices (past ++ (x ∷ [])) now after (servers ++ row)
                (e ∙ sym (append_assoc past (x ∷ []) (now ++ after)))
                (omega (arith, length-append past (x ∷ []))) (omega arith)
                (omega (arith, length-append servers row, length-copies d (ip_addr x, port + i)))
              ∙ ap (λ all. some (filled all 0))
                  (append_assoc servers row (device_servers init ip_addr port (suc i) d now))))
    where
      d : ℕ
      d = length devices

      row : List ServerAt
      row = copies d (ip_addr x, port + i)

  -- A round that asks for a device that is not there is undefined.
  device_loop-none :
      (port i j k : ℕ) (devices : List Text) (slots : Slots)
      → get_elem? devices i ≡ none
      → 0 < k
      → device_loop init ip_addr port i devices j k slots ≡ none
  unfolding device_loop device_round
  device_loop-none port i j zero devices slots h pos = absurd (omega arith)
  device_loop-none port i j (suc k) devices slots h pos = rw h refl

  nic_loop-none :
      (port i k : ℕ) (devices : List Text) (slots : Slots)
      → 0 < length devices
      → length devices < i + k
      → i ≤ length devices
      → nic_loop init ip_addr port i devices k slots ≡ none
  unfolding nic_loop
  nic_loop-none port i zero devices slots pos h le = absurd (omega arith)
  nic_loop-none port i (suc k) devices slots pos h le = elim (Bool-cases (i == length devices)) [
    | inl e ↦ ap (behind _) (
        device_loop-none port i 0 (length devices) devices slots
          (get_elem?-end devices i (ground arith)) pos)
    | inr ne ↦
        behind-none _
          (λ filled. nic_loop-none port (suc i) k devices filled pos (omega arith) (ground arith))
          (device_loop init ip_addr port i devices 0 (length devices) slots)
  ]

  main-filled :
      (flags : MainFlags) (servers : List ServerAt)
      → result (
          start_servers init ip_addr flags.port
            (flags.num_ports + flags.num_ports_for_sparse)
            flags.nics)
        ≡ some (filled servers 0)
      → result (main init ip_addr flags) ≡ some servers
  unfolding main
  main-filled flags servers h =
      result-behind joined (
        start_servers init ip_addr flags.port (flags.num_ports + flags.num_ports_for_sparse)
          flags.nics)
      ∙ (ap (bound (λ s. result (joined s))) h
          ∙ ap (λ o. result (joined_all o)) (join_servers-filled servers))

  -- Without devices `main` joins one server for each port, in order: no slot stays null.
  pub main_ports :
      (flags : MainFlags)
      → flags.nics ≡ []
      → result (main init ip_addr flags)
        ≡ some (port_servers flags.port 0 (flags.num_ports + flags.num_ports_for_sparse))
  unfolding start_servers
  main_ports flags h =
      let n = flags.num_ports + flags.num_ports_for_sparse in
      main-filled flags (port_servers flags.port 0 n) (
        ap (λ nics. result (start_servers init ip_addr flags.port n nics)) h
        ∙ port_loop-filled init ip_addr flags.port 0 n [] refl)

  with_devices-filled :
      (port n : ℕ) (devices : List Text)
      → n ≤ length devices
      → result (with_devices init ip_addr port n (some devices))
        ≡ some (filled (device_servers init ip_addr port 0 (length devices) (take n devices)) 0)
  unfolding with_devices
  with_devices-filled port n devices h =
      ap (λ k. result (nic_loop init ip_addr port 0 devices n (empty_slots k))) same
      ∙ nic_loop-filled port 0 n devices [] (take n devices) (drop n devices) []
          (sym (take-drop n devices)) refl (omega (arith, length-take n devices)) (omega arith)
    where
      same : length devices * n ≡ times n (length devices)
      same = omega (arith, times_lem n (length devices))

  with_devices-none :
      (port n : ℕ) (devices : List Text)
      → 0 < length devices
      → length devices < n
      → with_devices init ip_addr port n (some devices) ≡ none
  unfolding with_devices
  with_devices-none port n devices pos h =
      nic_loop-none port 0 n devices _ pos (omega arith) (omega arith)

  -- With devices, as many servers are joined for each port as there are devices, and no slot stays null;
  -- but all servers of the `i`-th port get the address of the `i`-th device. With more ports than
  -- devices the program reads past the devices, which is undefined.
  pub main_devices :
      (flags : MainFlags) (c : ℕ) (rest : Text) (devices : List Text)
      → flags.nics ≡ c ∷ rest
      → split (c ∷ rest) 44 ≡ some devices
      → 0 < length devices
      → ((flags.num_ports + flags.num_ports_for_sparse ≤ length devices)
          × (result (main init ip_addr flags)
              ≡ some (
                  device_servers init ip_addr flags.port 0
                    (length devices)
                    (take (flags.num_ports + flags.num_ports_for_sparse) devices))))
        ⊎ ((length devices < flags.num_ports + flags.num_ports_for_sparse)
            × (main init ip_addr flags ≡ none))
  unfolding start_servers main
  main_devices flags c rest devices h e pos = elim (≤-or-< n (length devices)) [
    | inl le ↦ inl (
      le,
      main-filled flags (device_servers init ip_addr flags.port 0 (length devices) (take n devices))
          (ap result same ∙ with_devices-filled flags.port n devices le),
    )
    | inr lt ↦ inr (lt, ap (behind joined) (same ∙ with_devices-none flags.port n devices pos lt))
  ]
    where
      n : ℕ
      n = flags.num_ports + flags.num_ports_for_sparse

      same :
          start_servers init ip_addr flags.port n flags.nics
          ≡ with_devices init ip_addr flags.port n (some devices)
      same =
          ap (start_servers init ip_addr flags.port n) h
          ∙ ap (with_devices init ip_addr flags.port n) e
