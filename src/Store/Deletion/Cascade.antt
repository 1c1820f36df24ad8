-- ===== src/Store/Deletion/Cascade.antt =====
-- What the deletion of a conversation takes.
use mathlib.Core.Path.{subst}
use nonetchat_web.Prelude.{
  String, ◌≡◌, refl, ◌⊎◌, inl, inr, Bool, true, false, none, some, List, [], ◌∷◌, eq_iff, arith,
  All, filter, map, if◌then◌else◌, Member, Bool-cases, eq_refl, ◌∙◌,
}
use nonetchat_web.Prelude.Dict
use nonetchat_web.Prelude.Dict.{Dict, get-delete}
use nonetchat_web.Prelude.StrSet.{mem}
use nonetchat_web.Prelude.Keyed.{IsKeyed}
use nonetchat_web.Store.Types.{StoredMessage, StoredConversation, Db}
use nonetchat_web.Store.Exec.{ok, ready, write, ◌>>=◌}
use nonetchat_web.Store.Messages.{of_conversation, has_conversation}
use nonetchat_web.Store.Deletion.{delete_all, drop_messages_of, delete_conversation}
use nonetchat_web.Store.Deletion.Newest.{
  refreshed_db, refresh-ready, refresh-IsRefreshed, messages-refreshed_db,
  of_conversation-refreshed_db,
}

get-delete_all {ℓ} :
    {V : Type ℓ} (k : String) (ks : List String) (m : Dict V)
    → Dict.get k (delete_all ks m) ≡ (if mem k ks then none else Dict.get k m)
unfolding delete_all mem
get-delete_all k [] m = refl
get-delete_all k (j ∷ ks) m =
    ground (arith, get-delete_all k ks (Dict.delete j m), get-delete k j m, eq_iff j k)

-- A property of the entries under other keys survives the deletion of a key.
All-delete :
    {V : Type 0} (P : String × V → Type 0) (k : String) (m : Dict V)
    → All (λ e. ((e.0 ≡ k) ⊎ P e)) m
    → All P (Dict.delete k m)
unfolding Dict.delete
All-delete P k [] h = tt
All-delete P k ((j, v) ∷ m) h = ground (arith, eq_iff j k, All-delete P k m)

module _ {V : Type 0} (key : V → String) (p : V → Bool) where
  -- Every entry that passes the test stands under one of the keys `ks`.
  abbrev IsCovered : List String → Dict V → Type 0
  IsCovered ks m = All (λ e. (mem e.0 ks ≡ true) ⊎ (p e.1 ≡ false)) m

  filter_of_uncovered : (m : Dict V) → IsCovered [] m → filter p (Dict.values m) ≡ []
  unfolding mem Dict.values
  filter_of_uncovered [] h = refl
  filter_of_uncovered ((j, v) ∷ m) h = ground (arith, filter_of_uncovered m h.1)

  IsCovered-delete :
      (k : String) (ks : List String) (m : Dict V)
      → IsCovered (k ∷ ks) m
      → IsCovered ks (Dict.delete k m)
  unfolding Dict.delete mem
  IsCovered-delete k ks [] h = tt
  IsCovered-delete k ks ((j, v) ∷ m) h =
      ground (arith, eq_iff j k, eq_iff k j, IsCovered-delete k ks m h.1)

  filter-delete_all :
      (ks : List String) (m : Dict V)
      → IsCovered ks m
      → filter p (Dict.values (delete_all ks m)) ≡ []
  unfolding delete_all
  filter-delete_all [] m h = filter_of_uncovered m h
  filter-delete_all (k ∷ ks) m h =
      filter-delete_all ks (Dict.delete k m) (IsCovered-delete k ks m h)

  IsCovered-ids :
      (ks : List String) (m : Dict V)
      → IsKeyed key m
      → ((k : String) → mem k (map key (filter p (Dict.values m))) ≡ true → mem k ks ≡ true)
      → IsCovered ks m
  unfolding mem Dict.values
  IsCovered-ids ks [] h sub = tt
  IsCovered-ids ks ((j, v) ∷ m) (same, new, h) sub = (
    elim (Bool-cases (p v)) [
      | inl passes ↦ inl (sub j (rw (passes, same, eq_refl)))
      | inr fails ↦ inr fails
    ],
    IsCovered-ids ks m h (λ k later. sub k (ground arith)),
  )

module _ (cid : String) (db : Db) (conv : StoredConversation) where
  -- On an open database where nothing aborts, deleting an existing conversation leaves no message
  -- of it and no record of it, takes away the messages that stood in it and their blobs, and leaves
  -- every other message and every other blob. Every message stands under its id.
  pub delete_conversation-cascade :
      IsKeyed (λ m. m.id) db.messages
      → Dict.get cid db.conversations ≡ some conv
      → conv.id ≡ cid
      → let ids = map (λ m. m.id) (of_conversation cid db) in
        (db' : Db) × (delete_conversation cid (ready db) ≡ (ok tt, ready db'))
        × (of_conversation cid db' ≡ [])
        × (Dict.get cid db'.conversations ≡ none)
        × ((k : String)
            → Dict.get k db'.messages ≡ (if mem k ids then none else Dict.get k db.messages))
        × ((k : String)
            → Dict.get k db'.file_blobs ≡ (if mem k ids then none else Dict.get k db.file_blobs))
  unfolding delete_conversation ◌>>=◌ write of_conversation
  delete_conversation-cascade keyed found same =
      let db₁ = drop_messages_of cid db in
      let p : StoredMessage → Bool = λ m. has_conversation cid m.conversation_id in
      let gone_ids : List String = map (λ m. m.id) (of_conversation cid db) in
      let gone : of_conversation cid db₁ ≡ [] =
        filter-delete_all (λ m. m.id) p _ db.messages
          (IsCovered-ids (λ m. m.id) p _ db.messages keyed (λ k h. h)) in
      (
        refreshed_db cid conv db₁ found same,
        refresh-ready cid conv db₁ found same,
        of_conversation-refreshed_db cid conv db₁ found same ∙ gone,
        elim (refresh-IsRefreshed cid conv db₁ found same) [
          | inl (e, _) ↦ e
          | inr (m, _, here, _) ↦ absurd (subst (Member m) gone here)
        ],
        λ k.
            rw ((messages-refreshed_db cid conv db₁ found same).0)
              (get-delete_all k gone_ids db.messages),
        λ k.
            rw ((messages-refreshed_db cid conv db₁ found same).1)
              (get-delete_all k gone_ids db.file_blobs),
      )
