-- ===== src/Storage/TableFile/Map.antt =====
-- The laws of the maps by name that stand for the disk's files and `std::unordered_map`.
use microsql.Base.{
  ◌≡◌, refl, ap, ◌∙◌, inl, inr, false, none, some, List, [], ◌∷◌, if◌then◌else◌, Bool-cases, Text,
  text_eq, text_eq_refl, text_eq→eq,
}
use microsql.Storage.TableFile.{lookup, insert, remove}

module _ {A : Type 0} where
  pub lookup-insert : (k : Text) (v : A) (m : List (Text × A)) → lookup k (insert k v m) ≡ some v
  unfolding lookup insert
  lookup-insert k v [] = rw (text_eq_refl k)
  lookup-insert k v ((j, w) ∷ m) = elim (Bool-cases (text_eq j k)) [
    | inl h ↦ rw (h, lookup, h)
    | inr h ↦ rw (h, lookup, h) (lookup-insert k v m)
  ]

  pub lookup-insert_other :
      (k l : Text) (v : A) (m : List (Text × A))
      → text_eq k l ≡ false
      → lookup l (insert k v m) ≡ lookup l m
  unfolding lookup insert
  lookup-insert_other k l v [] h = rw h
  lookup-insert_other k l v ((j, w) ∷ m) h = elim (Bool-cases (text_eq j k)) [
    | inl e ↦
        let other : text_eq j l ≡ false = ap (λ x. text_eq x l) (text_eq→eq j k e) ∙ h in
        rw (e, lookup, other)
    | inr e ↦
        rw (e, lookup) (ap (λ r. if text_eq j l then some w else r) (lookup-insert_other k l v m h))
  ]

  pub lookup-remove : (k : Text) (m : List (Text × A)) → lookup k (remove k m) ≡ none
  unfolding lookup remove
  lookup-remove k [] = refl
  lookup-remove k ((j, w) ∷ m) = elim (Bool-cases (text_eq j k)) [
    | inl e ↦ rw e (lookup-remove k m)
    | inr e ↦ rw (e, lookup, e) (lookup-remove k m)
  ]
