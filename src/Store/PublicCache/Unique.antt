-- ===== src/Store/PublicCache/Unique.antt =====
-- The unique index `room_msgId` of the public cache.
use nonetchat_web.Prelude.{
  ℕ, ◌≡◌, Bool, false, ◌&&◌, Option, none, some, List, [], ◌∷◌, ◌++◌, ◌==◌, arith, ltb, filter, any,
  All, All-filter, Bool-cases, inl, inr,
}
use nonetchat_web.Store.Types.{PublicMessage}
use nonetchat_web.Store.PublicCache.{
  without, add_once, purge_ttl, purge_room, purge_global, append_capped,
}

abbrev pub same_message : PublicMessage → PublicMessage → Bool
same_message a b = (a.room_id == b.room_id) && (a.msg_id == b.msg_id)

abbrev pub IsUnique : List PublicMessage → Type 0
IsUnique [] = Unit
IsUnique (r ∷ rows) = All (λ s. same_message r s ≡ false) rows × IsUnique rows

filter-IsUnique :
    (p : PublicMessage → Bool) (rows : List PublicMessage)
    → IsUnique rows
    → IsUnique (filter p rows)
filter-IsUnique p [] u = tt
filter-IsUnique p (r ∷ rows) u =
    ground
      (arith, filter-IsUnique p rows u.1, All-filter (λ s. same_message r s ≡ false) p rows u.0)

All-concat :
    (r x : PublicMessage) (rows : List PublicMessage)
    → All (λ s. same_message r s ≡ false) rows
    → same_message r x ≡ false
    → All (λ s. same_message r s ≡ false) (rows ++ x ∷ [])
All-concat r x [] h e = (e, tt)
All-concat r x (s ∷ rows) h e = (h.0, All-concat r x rows h.1 e)

IsUnique-concat :
    (x : PublicMessage) (rows : List PublicMessage)
    → IsUnique rows
    → any (λ r. same_message r x) rows ≡ false
    → IsUnique (rows ++ x ∷ [])
IsUnique-concat x [] u h = (tt, tt)
IsUnique-concat x (r ∷ rows) u h =
    (All-concat r x rows u.0 (ground arith), IsUnique-concat x rows u.1 (ground arith))

add_once-IsUnique :
    (rec : PublicMessage) (key : ℕ) (rows : List PublicMessage)
    → IsUnique rows
    → IsUnique (add_once rec key rows)
unfolding add_once
add_once-IsUnique rec key rows u = ground (arith, IsUnique-concat (record rec { id = key }) rows u)

-- An append keeps every message at most once in its room, whatever the bounds and the age limit.
pub append_capped-IsUnique :
    (rec : PublicMessage) (room_cap total_cap : ℕ) (ttl : Option ℕ) (now key : ℕ)
    (rows : List PublicMessage)
    → IsUnique rows
    → IsUnique (append_capped rec room_cap total_cap ttl now key rows)
unfolding append_capped purge_room purge_global purge_ttl without
append_capped-IsUnique rec room_cap total_cap ttl now key rows u =
    filter-IsUnique _ _ (filter-IsUnique _ _ (expire ttl))
  where
    grown : IsUnique (add_once rec key rows)
    grown = add_once-IsUnique rec key rows u

    expire : (o : Option ℕ) → IsUnique (purge_ttl o now (add_once rec key rows))
    expire none = grown
    expire (some t) = elim (Bool-cases (ltb 0 t)) [
      | inl on ↦ rw on (filter-IsUnique _ (add_once rec key rows) grown)
      | inr off ↦ rw off grown
    ]
