-- ===== src/Server/Heartbeat/Liveness.antt =====
-- Who stays connected (src/server/server.js, lines 739-758 and 1272-1276).
use nonetchat_web.Prelude.{
  ℕ, String, ◌≡◌, refl, Option, none, some, true, false, List, [], ◌∷◌, ◌==◌, eq_iff, arith, ap,
  ◌∙◌, if◌then◌else◌, truthy, is_some, Bool-cases, inl, inr, sym,
}
use nonetchat_web.Prelude.Dict
use nonetchat_web.Prelude.Dict.{Dict, get-set, get-delete, get-set_same}
use nonetchat_web.Prelude.Keys.{DistinctKeys, set-DistinctKeys, delete-DistinctKeys}
use nonetchat_web.Server.State.{
  Server, Client, World, client_id, find_ws, log_effect, shut, terminated,
}
use nonetchat_web.Server.Discovery.{Chance}
use nonetchat_web.Server.Discovery.Effects.{announce_keeps}
use nonetchat_web.Server.Signalling.{on_pong}
use nonetchat_web.Server.Heartbeat.{
  check_client, check_found, check_clients, heartbeat_tick, terminate,
}

-- What a check leaves of a client.
abbrev pub asked : Option Client → Option Client
asked none = none
asked (some c) = if c.is_alive then some (record c { is_alive = false }) else none

module _ (w : World) (h : Chance) where
  clients-terminate :
      (id : String) (c : Client) (s : Server)
      → (terminate w h id c s).clients ≡ Dict.delete id s.clients
  clients-terminate id c s =
      let gone = log_effect (terminated c.ws) (shut c.ws s) in
      (announce_keeps w h (record gone { clients = Dict.delete id gone.clients })).0

  ids-check_client : (id : String) (s : Server) → (check_client w h id s).ids ≡ s.ids
  unfolding check_client
  ids-check_client id s = go (Dict.get id s.clients)
    where
      go : (o : Option Client) → (check_found w h id s o).ids ≡ s.ids
      go none = refl
      go (some c) = elim (Bool-cases c.is_alive) [
        | inl e ↦ rw e refl
        | inr e ↦ rw e (
            let gone = log_effect (terminated c.ws) (shut c.ws s) in
            (announce_keeps w h (record gone { clients = Dict.delete id gone.clients })).2)
      ]

  ids-check_clients : (ids : List String) (s : Server) → (check_clients w h ids s).ids ≡ s.ids
  unfolding check_clients
  ids-check_clients [] s = refl
  ids-check_clients (id ∷ ids) s =
      ids-check_clients ids (check_client w h id s) ∙ ids-check_client id s

  get-check_client :
      (j id : String) (s : Server)
      → Dict.get j (check_client w h id s).clients
        ≡ (if id == j then asked (Dict.get j s.clients) else Dict.get j s.clients)
  unfolding check_client
  get-check_client j id s = go (Dict.get id s.clients) refl
    where
      at : (k : String) → (id == k) ≡ true → Dict.get k s.clients ≡ Dict.get id s.clients
      at k t = let e : k ≡ id = ground (arith, eq_iff id k) in ap (λ i. Dict.get i s.clients) e

      pick :
          (o : Option Client)
          → Dict.get id s.clients ≡ o
          → (r : Option Client) → asked o ≡ r
          → (if id == j then r else Dict.get j s.clients)
            ≡ (if id == j then asked (Dict.get j s.clients) else Dict.get j s.clients)
      pick o e r same = elim (Bool-cases (id == j)) [
        | inl t ↦ rw t (sym (ap asked (at j t ∙ e) ∙ same))
        | inr f ↦ rw f refl
      ]

      go :
          (o : Option Client)
          → Dict.get id s.clients ≡ o
          → Dict.get j (check_found w h id s o).clients
            ≡ (if id == j then asked (Dict.get j s.clients) else Dict.get j s.clients)
      go none e = elim (Bool-cases (id == j)) [
        | inl t ↦ rw t (rw (at j t ∙ e) refl)
        | inr f ↦ rw f refl
      ]
      go (some c) e = elim (Bool-cases c.is_alive) [
        | inl alive ↦ rw alive (
            get-set j id (record c { is_alive = false }) s.clients
            ∙ pick (some c) e (some (record c { is_alive = false })) (rw alive refl))
        | inr dead ↦ rw dead (
            ap (Dict.get j) (clients-terminate id c s)
            ∙ get-delete j id s.clients
            ∙ pick (some c) e none (rw dead refl))
      ]

  -- A client that the last check asked and that did not answer.
  abbrev IsDue : String → Server → Type 0
  IsDue j s = asked (Dict.get j s.clients) ≡ none

  asked-asked : (o : Option Client) → asked (asked o) ≡ none
  asked-asked none = refl
  asked-asked (some c) = elim (Bool-cases c.is_alive) [ inl e ↦ rw e refl | inr e ↦ rw e refl ]

  check_client-IsDue : (j id : String) (s : Server) → IsDue j s → IsDue j (check_client w h id s)
  check_client-IsDue j id s due = ap asked (get-check_client j id s) ∙ elim (Bool-cases (id == j)) [
    | inl e ↦ rw e (asked-asked (Dict.get j s.clients))
    | inr e ↦ rw e due
  ]

  check_clients-IsDue :
      (j : String) (ids : List String) (s : Server) → IsDue j s → IsDue j (check_clients w h ids s)
  unfolding check_clients
  check_clients-IsDue j [] s due = due
  check_clients-IsDue j (id ∷ ids) s due =
      check_clients-IsDue j ids (check_client w h id s) (check_client-IsDue j id s due)

  -- A walk over the keys of a map that has `j` makes `j` due.
  walk-IsDue :
      (j : String) (m : Dict Client) (s : Server)
      → (Dict.get j m ≡ none → IsDue j s)
      → IsDue j (check_clients w h (Dict.keys m) s)
  unfolding check_clients Dict.keys Dict.get
  walk-IsDue j [] s due = due refl
  walk-IsDue j ((k, v) ∷ m) s due = elim (Bool-cases (k == j)) [
    | inl e ↦
        check_clients-IsDue j (Dict.keys m) (check_client w h k s)
          (ap asked (get-check_client j k s) ∙ rw e (asked-asked (Dict.get j s.clients)))
    | inr e ↦
        walk-IsDue j m (check_client w h k s)
          (λ absent. check_client-IsDue j k s (due (rw e absent)))
  ]

  tick-IsDue : (j : String) (s : Server) → IsDue j (heartbeat_tick w h s)
  unfolding heartbeat_tick
  tick-IsDue j s = walk-IsDue j s.clients s (λ absent. rw absent refl)

  -- Each client is checked once, where the map holds no key twice.
  get-walk :
      (j : String) (m : Dict Client) (s : Server)
      → DistinctKeys m
      → Dict.get j (check_clients w h (Dict.keys m) s).clients
        ≡ (if is_some (Dict.get j m) then asked (Dict.get j s.clients) else Dict.get j s.clients)
  unfolding check_clients Dict.keys Dict.get
  get-walk j [] s distinct = refl
  get-walk j ((k, v) ∷ m) s (new, distinct) =
      get-walk j m (check_client w h k s) distinct
      ∙ rw (get-check_client j k s) (elim (Bool-cases (k == j)) [
        | inl e ↦
            let same : j ≡ k = ground (arith, eq_iff k j) in
            let gone : Dict.get j m ≡ none = ap (λ i. Dict.get i m) same ∙ new in rw (e, gone) refl
        | inr e ↦ rw e refl
      ])

  none-check_clients :
      (j : String) (ids : List String) (s : Server)
      → Dict.get j s.clients ≡ none
      → Dict.get j (check_clients w h ids s).clients ≡ none
  unfolding check_clients
  none-check_clients j [] s e = e
  none-check_clients j (id ∷ ids) s e = none-check_clients j ids (check_client w h id s) (
      get-check_client j id s
      ∙ elim (Bool-cases (id == j)) [ inl f ↦ rw (f, e) refl | inr f ↦ rw f e ])

  walk-due :
      (j : String) (m : Dict Client) (s : Server)
      → (Dict.get j m ≡ none → Dict.get j s.clients ≡ none)
      → IsDue j s
      → Dict.get j (check_clients w h (Dict.keys m) s).clients ≡ none
  unfolding check_clients Dict.keys Dict.get
  walk-due j [] s absent due = absent refl
  walk-due j ((k, v) ∷ m) s absent due = elim (Bool-cases (k == j)) [
    | inl e ↦
        none-check_clients j (Dict.keys m) (check_client w h k s)
          (get-check_client j k s ∙ rw e due)
    | inr e ↦
        walk-due j m (check_client w h k s) (λ f. get-check_client j k s ∙ rw e (absent (rw e f)))
          (check_client-IsDue j k s due)
  ]

  pub check_client-DistinctKeys :
      (id : String) (s : Server)
      → DistinctKeys s.clients
      → DistinctKeys (check_client w h id s).clients
  unfolding check_client
  check_client-DistinctKeys id s d = go (Dict.get id s.clients)
    where
      go : (o : Option Client) → DistinctKeys (check_found w h id s o).clients
      go none = d
      go (some c) = elim (Bool-cases c.is_alive) [
        | inl e ↦ rw e (set-DistinctKeys id (record c { is_alive = false }) s.clients d)
        | inr e ↦ rw e (rw (clients-terminate id c s) (delete-DistinctKeys id s.clients d))
      ]

  check_clients-DistinctKeys :
      (ids : List String) (s : Server)
      → DistinctKeys s.clients
      → DistinctKeys (check_clients w h ids s).clients
  unfolding check_clients
  check_clients-DistinctKeys [] s d = d
  check_clients-DistinctKeys (id ∷ ids) s d =
      check_clients-DistinctKeys ids (check_client w h id s) (check_client-DistinctKeys id s d)

  pub heartbeat_tick-DistinctKeys :
      (s : Server) → DistinctKeys s.clients → DistinctKeys (heartbeat_tick w h s).clients
  unfolding heartbeat_tick
  heartbeat_tick-DistinctKeys s d = check_clients-DistinctKeys (Dict.keys s.clients) s d

  -- One check marks every client that is alive and takes away every other one.
  pub get-heartbeat_tick :
      (j : String) (s : Server)
      → DistinctKeys s.clients
      → Dict.get j (heartbeat_tick w h s).clients ≡ asked (Dict.get j s.clients)
  unfolding heartbeat_tick
  get-heartbeat_tick j s d = get-walk j s.clients s d ∙ go (Dict.get j s.clients)
    where
      go : (o : Option Client) → (if is_some o then asked o else o) ≡ asked o
      go none = refl
      go (some c) = refl

  tick-due :
      (j : String) (s : Server) → IsDue j s → Dict.get j (heartbeat_tick w h s).clients ≡ none
  unfolding heartbeat_tick
  tick-due j s due = walk-due j s.clients s (λ e. e) due

module _ (w : World) (h h' : Chance) (s : Server) where
  -- Two checks with no answer in between leave no client.
  pub heartbeat_tick_twice :
      (j : String) → Dict.get j (heartbeat_tick w h' (heartbeat_tick w h s)).clients ≡ none
  heartbeat_tick_twice j = tick-due w h' j (heartbeat_tick w h s) (tick-IsDue w h j s)

  get-on_pong :
      (t : Server) (ws : ℕ) (id : String) (c : Client)
      → client_id ws t ≡ some id
      → truthy (some id) ≡ some id
      → Dict.get id t.clients ≡ some c
      → (on_pong ws t).clients ≡ Dict.set id (record c { is_alive = true }) t.clients
  unfolding on_pong
  get-on_pong t ws id c e f g = rw e (rw f (rw g refl))

  -- A client that is alive at a check and whose socket answers before the next one is still
  -- registered after that, with nothing but its mark changed. The map of the clients holds no key
  -- twice, and the device's id is not empty.
  pub heartbeat_tick-on_pong :
      (ws : ℕ) (id : String) (c : Client)
      → DistinctKeys s.clients
      → Dict.get id s.clients ≡ some c
      → c.is_alive ≡ true
      → client_id ws s ≡ some id
      → truthy (some id) ≡ some id
      → Dict.get id (heartbeat_tick w h' (on_pong ws (heartbeat_tick w h s))).clients
        ≡ some (record c { is_alive = false })
  unfolding client_id
  heartbeat_tick-on_pong ws id c d e alive bound named =
      let t = heartbeat_tick w h s in
      let marked : Client = record c { is_alive = false } in
      let got : Dict.get id t.clients ≡ some marked =
        get-heartbeat_tick w h id s d ∙ rw e (rw alive refl) in
      let back : Client = record marked { is_alive = true } in
      let ids : t.ids ≡ s.ids =
        unfold heartbeat_tick in ids-check_clients w h (Dict.keys s.clients) s in
      let pong = get-on_pong t ws id marked (ap (find_ws ws) ids ∙ bound) named got in
      let kept : DistinctKeys t.clients = heartbeat_tick-DistinctKeys w h s d in
      get-heartbeat_tick w h' id (on_pong ws t) (rw pong (set-DistinctKeys id back t.clients kept))
      ∙ ap asked (ap (Dict.get id) pong ∙ get-set_same id back t.clients)
