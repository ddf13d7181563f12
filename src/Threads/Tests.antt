-- ===== src/Threads/Tests.antt =====
-- Threads at concrete tables: message 2 replies to 1, and 3 is on its own.
use projects_backend.Base.{
  ◌==◌, Bool-cases, some-injective, none-ne-some, ok, err, ◌≡◌, refl, ap, ◌∙◌, inl, inr, none, some,
  List, [], ◌∷◌,
}
use projects_backend.Threads.{
  Message, null, target, attribute_error, reply_on_reply, create_message, update_message,
}
use projects_backend.Threads.Flat.{IsFlat, HasNoReplies, validated_reply-IsFlat}
use projects_backend.Threads.Linked.{linked_with_replies}

abbrev first : Message
first = record { id = 1; reply_on = none }

abbrev answer : Message
answer = record { id = 2; reply_on = some 1 }

abbrev other : Message
other = record { id = 3; reply_on = none }

abbrev messages : List Message
messages = first ∷ answer ∷ other ∷ []

reply_to_reply : create_message 4 (target 2) messages ≡ err reply_on_reply
unfolding create_message
reply_to_reply = refl

-- a null that is sent
null_reply : create_message 4 null messages ≡ err attribute_error
unfolding create_message
null_reply = refl

single-IsFlat : IsFlat (first ∷ [])
single-IsFlat = record {
  flat = λ i p m there reply. elim (Bool-cases (1 == i)) [
    | inl e ↦ absurd (
        none-ne-some p
          (ap (λ (z : Message). z.reply_on) (some-injective first m (rw e at there)) ∙ reply))
    | inr e ↦ absurd (none-ne-some m (rw e at there))
  ];
}

validated_reply-IsFlat_test :
    (create_message 2 (target 1) (first ∷ []) ≡ ok (first ∷ answer ∷ [])
      → IsFlat (first ∷ answer ∷ []))
    × (update_message 2 (target 1) (first ∷ []) ≡ ok (first ∷ answer ∷ [])
        → HasNoReplies 2 (first ∷ [])
        → IsFlat (first ∷ answer ∷ []))
validated_reply-IsFlat_test =
    validated_reply-IsFlat (first ∷ []) (first ∷ answer ∷ []) 2 (target 1) single-IsFlat

linked_with_replies_test :
    (ms' : List Message) × (update_message 1 (target 3) messages ≡ ok ms') × (IsFlat ms' → ⊥)
linked_with_replies_test =
    linked_with_replies messages 1 2 3 first answer other refl refl refl refl refl refl refl
