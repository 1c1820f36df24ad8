-- ===== src/Peer/Files/Slices.antt =====
-- The slices of a file, and the end of the loop that sends them (src/services/PeerService.ts, lines 1417-1500).
use nonetchat_web.Prelude.{
  ℕ, zero, suc, ◌+◌, ◌-◌, ◌≤◌, ◌<◌, String, ◌≡◌, refl, some, true, false, List, [], ◌∷◌, ◌++◌, ap,
  ◌∙◌, sym, length, take, drop, length-take, length-drop, take-append-drop, arith, All, ltb, ltb→lt,
  Bool-cases, inl, inr,
}
use Prim.Native.Nat.{min}
use mathlib.Core.List.{append_assoc, append-nil}
use nonetchat_web.Prelude.Dict
use nonetchat_web.Prelude.Dict.{get-set_same}
use nonetchat_web.Peer.State.{Peer, Channel, Frame, binary}
use nonetchat_web.Peer.Files.{
  Bytes, SliceEvent, quiet, Transfer, resolved, send_slices, send_slice, slice_at, chunk_size,
}

abbrev pub joined : List Bytes → Bytes
joined [] = []
joined (b ∷ bs) = b ++ joined bs

abbrev pub frames_of : Bytes → List Bytes → List Frame
frames_of id [] = []
frames_of id (b ∷ bs) = binary (id ++ b) ∷ frames_of id bs

drop_nil : (n : ℕ) → drop {A = ℕ} n [] ≡ []
drop_nil zero = refl
drop_nil (suc n) = refl

drop-drop : (a b : ℕ) (xs : Bytes) → drop a (drop b xs) ≡ drop (b + a) xs
drop-drop a zero xs = ap (λ n. drop n xs) (omega arith)
drop-drop a (suc b) [] = drop_nil a ∙ sym (drop_nil (suc b + a))
drop-drop a (suc b) (x ∷ xs) =
    let e : suc (b + a) ≡ suc b + a = omega arith in drop-drop a b xs ∙ ap (λ n. drop n (x ∷ xs)) e

take_all : (n : ℕ) (xs : Bytes) → length xs ≤ n → take n xs ≡ xs
take_all zero [] h = refl
take_all zero (x ∷ xs) h = ground (arith, h)
take_all (suc n) [] h = refl
take_all (suc n) (x ∷ xs) h = ap (◌∷◌ x) (take_all n xs (omega (arith, h)))

-- A slice of `c` at most, of what is left from `o` on of `total`.
short_rest :
    (c o total rest len : ℕ)
    → len ≡ min c rest
    → rest ≡ total - o
    → ltb (o + len) total ≡ false
    → rest ≤ c
short_rest c o total rest len e f h = ground arith

full_slice :
    (c o total rest len : ℕ)
    → len ≡ min c rest
    → rest ≡ total - o
    → ltb (o + len) total ≡ true
    → len ≡ c
full_slice c o total rest len e f h = ground arith

module _ (events : ℕ → SliceEvent) (calm : (n : ℕ) → events n ≡ quiet) (peer_id : String)
    (id blob : Bytes) where
  -- What is sent from an offset on.
  abbrev IsSentFrom : ℕ → Channel → Transfer × Peer → Type 0
  IsSentFrom offset dc r =
      (chunks : List Bytes) × (r.0 ≡ resolved)
      × (Dict.get peer_id r.1.data_channels
          ≡ some (record dc { frames = dc.frames ++ frames_of id chunks }))
      × (joined chunks ≡ drop offset blob)
      × All (λ c. length c ≤ chunk_size) chunks

  -- The state after the slice at an offset.
  abbrev after_slice : ℕ → Peer → Peer
  after_slice offset s = send_slice peer_id id (slice_at offset blob) s

  abbrev with_slice : ℕ → Channel → Channel
  with_slice offset dc = record dc {
    frames = dc.frames ++ binary (id ++ slice_at offset blob) ∷ [];
  }

  slice_sent :
      (offset : ℕ) (s : Peer) (dc : Channel)
      → Dict.get peer_id s.data_channels ≡ some dc
      → Dict.get peer_id (after_slice offset s).data_channels ≡ some (with_slice offset dc)
  slice_sent offset s dc there =
      rw there (get-set_same peer_id (with_slice offset dc) s.data_channels)

  length-slice_at : (offset : ℕ) → length (slice_at offset blob) ≤ chunk_size
  length-slice_at offset = omega (arith, length-take chunk_size (drop offset blob))

  last_slice :
      (offset : ℕ) (s : Peer) (dc : Channel)
      → Dict.get peer_id s.data_channels ≡ some dc
      → ltb (offset + length (slice_at offset blob)) (length blob) ≡ false
      → IsSentFrom offset dc (resolved, after_slice offset s)
  last_slice offset s dc there over =
      let rest = drop offset blob in
      let short : length rest ≤ chunk_size =
        short_rest chunk_size offset (length blob) (length rest) (length (slice_at offset blob))
          (length-take chunk_size rest) (length-drop offset blob) over in
      (
        slice_at offset blob ∷ [],
        refl,
        slice_sent offset s dc there,
        append-nil (slice_at offset blob) ∙ take_all chunk_size rest short,
        (length-slice_at offset, tt),
      )

  longer :
      (offset : ℕ) (dc : Channel) (r : Transfer × Peer)
      → ltb (offset + length (slice_at offset blob)) (length blob) ≡ true
      → IsSentFrom (offset + length (slice_at offset blob)) (with_slice offset dc) r
      → IsSentFrom offset dc r
  longer offset dc r more (chunks, done, there, whole, small) =
      let rest = drop offset blob in
      let full : length (slice_at offset blob) ≡ chunk_size =
        full_slice chunk_size offset (length blob) (length rest) (length (slice_at offset blob))
          (length-take chunk_size rest) (length-drop offset blob) more in
      (
        slice_at offset blob ∷ chunks,
        done,
        there
            ∙ ap (λ fs. some (record dc { frames = fs }))
                (append_assoc dc.frames (binary (id ++ slice_at offset blob) ∷ [])
                  (frames_of id chunks)),
        ap (λ t. slice_at offset blob ++ t)
              (whole
                ∙ sym (drop-drop (length (slice_at offset blob)) offset blob)
                ∙ ap (λ k. drop k rest) full)
            ∙ take-append-drop chunk_size rest,
        (length-slice_at offset, small),
      )

  within_next :
      (offset : ℕ)
      → ltb (offset + length (slice_at offset blob)) (length blob) ≡ true
      → offset + length (slice_at offset blob) ≤ length blob
  within_next offset more =
      omega (arith, ltb→lt (offset + length (slice_at offset blob)) (length blob) more)

  enough_next :
      (offset fuel : ℕ)
      → ltb (offset + length (slice_at offset blob)) (length blob) ≡ true
      → length blob < offset + suc fuel
      → length blob < offset + length (slice_at offset blob) + fuel
  enough_next offset fuel more enough =
      let rest = drop offset blob in
      let full : length (slice_at offset blob) ≡ chunk_size =
        full_slice chunk_size offset (length blob) (length rest) (length (slice_at offset blob))
          (length-take chunk_size rest) (length-drop offset blob) more in
      omega (arith, full, enough)

  sent_from :
      (fuel n offset : ℕ) (s : Peer) (dc : Channel)
      → offset ≤ length blob
      → length blob < offset + fuel
      → Dict.get peer_id s.data_channels ≡ some dc
      → IsSentFrom offset dc (send_slices events peer_id id blob fuel n offset s)
  unfolding send_slices
  sent_from zero n offset s dc within enough there = ground (arith, within, enough)
  sent_from (suc fuel) n offset s dc within enough there =
      elim (Bool-cases (ltb (offset + length (slice_at offset blob)) (length blob))) [
        | inl more ↦
            rw (more, calm n)
              (longer offset dc
                (send_slices events peer_id id blob fuel (suc n)
                  (offset + length (slice_at offset blob)) (after_slice offset s))
                more
                (sent_from fuel (suc n) (offset + length (slice_at offset blob))
                  (after_slice offset s) (with_slice offset dc) (within_next offset more)
                  (enough_next offset fuel more enough) (slice_sent offset s dc there)))
        | inr over ↦ rw (over, calm n) (last_slice offset s dc there over)
      ]

  -- Where nothing goes wrong, the loop ends, whatever the file: it sends slices of 16 KiB at most,
  -- each behind the id of the message, on the channel, and together they are the file.
  pub send_slices_ends :
      (s : Peer) (dc : Channel)
      → Dict.get peer_id s.data_channels ≡ some dc
      → let r = send_slices events peer_id id blob (length blob + 1) 0 0 s in
        (chunks : List Bytes) × (r.0 ≡ resolved)
        × (Dict.get peer_id r.1.data_channels
            ≡ some (record dc { frames = dc.frames ++ frames_of id chunks }))
        × (joined chunks ≡ blob)
        × All (λ c. length c ≤ chunk_size) chunks
  send_slices_ends s dc there =
      sent_from (length blob + 1) 0 0 s dc (omega arith) (omega arith) there
