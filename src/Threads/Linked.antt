-- ===== src/Threads/Linked.antt =====
-- A reply to a reply that the checks of `validate_reply_on` let in.
use projects_backend.Base.{
  ◌==◌, ==_iff, some-injective, none-ne-some, ok, ℕ, ◌≡◌, refl, sym, ap, subst, ◌∙◌, false, none,
  some, List, arith,
}
use projects_backend.Threads.{Message, target, find_message, set_reply_on, update_message}
use projects_backend.Threads.Flat.{IsFlat, find-id, find-set_reply_on}

-- A message with a reply may be made a reply itself: linking it to another message that is no reply
-- passes the checks, and the threads are not flat any more.
pub linked_with_replies :
    (ms : List Message) (i j k : ℕ) (m reply b : Message)
    → find_message i ms ≡ some m
    → find_message j ms ≡ some reply
    → reply.reply_on ≡ some i
    → (j == i) ≡ false
    → find_message k ms ≡ some b
    → b.reply_on ≡ none
    → (k == i) ≡ false
    → (ms' : List Message) × (update_message i (target k) ms ≡ ok ms') × (IsFlat ms' → ⊥)
unfolding update_message
linked_with_replies ms i j k m reply b at_i at_j link ji at_k top ki =
    let id_b : b.id ≡ k = find-id k ms b at_k in
    let other : (i == b.id) ≡ false = ground arith in
    let apart : (reply.id == i) ≡ false =
      subst (λ x. (x == i) ≡ false) (sym (find-id j ms reply at_j)) ji in
    let kept : find_message j (set_reply_on i b.id ms) ≡ some reply =
      find-set_reply_on j i b.id ms reply at_j ∙ rw apart refl in
    let moved : find_message i (set_reply_on i b.id ms) ≡ some (record m { reply_on = some b.id }) =
      find-set_reply_on i i b.id ms m at_i ∙ rw ((==_iff m.id i).1 (find-id i ms m at_i)) refl in
    (
      set_reply_on i b.id ms,
      rw (at_k, top, other) refl,
      λ flat.
          let (q, at, none_on) = flat.flat j i reply kept link in
          none-ne-some b.id (
            sym none_on
            ∙ sym (
                ap (λ (z : Message). z.reply_on)
                  (some-injective (record m { reply_on = some b.id }) q (sym moved ∙ at)))),
    )
