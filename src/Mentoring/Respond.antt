-- ===== src/Mentoring/Respond.antt =====
-- The actions of apps/skills/views.py on the stores that requests lead to: `respond`, and what every
-- request keeps.
use projects_backend.Base.{
  ◌==◌, Bool-cases, ok-injective, err-ne-ok, ok, ℕ, ◌≡◌, subst, inl, inr, Bool, true, false, ◌&&◌,
  ◌||◌, Option, some, List, [], ◌∷◌, ◌++◌, arith,
}
use projects_backend.Mentoring.{
  MentoringStatus, Mentoring, Store, Answer, answered, find_mentoring, save_mentoring, respond,
}
use projects_backend.Mentoring.Reach.{Reaches, has_creator, found-holds}
use projects_backend.Mentoring.Sound.{sent, respond_ok, notify_creator_ok, reachable-IsSound}

found_participant :
    (user i : ℕ) (ms : List Mentoring) (m : Mentoring)
    → find_mentoring user i ms ≡ ok m
    → (m.mentoree == user || m.mentor == user) ≡ true
found_participant user i [] m h = absurd (err-ne-ok _ m h)
found_participant user i (x ∷ ms) m h =
    elim (Bool-cases (x.id == i && (x.mentoree == user || x.mentor == user))) [
      | inl e ↦
          subst (λ (z : Mentoring). (z.mentoree == user || z.mentor == user) ≡ true)
            (ok-injective x m (rw e at h)) (ground arith)
      | inr e ↦ found_participant user i ms m (rw e at h)
    ]

-- A response that returns, in a store that requests lead to, is never the 400 at the end of
-- `respond`: it comes from the one of the mentor and the mentoree that did not create the mentoring,
-- it sets the status that was sent, and it adds the message.
pub respond_answers :
    (user code i : ℕ) (body : Option (MentoringStatus × ℕ)) (refused : Bool) (s s' : Store)
    (a : Answer)
    → Reaches s
    → respond user code i body refused s ≡ ok (a, s')
    → (m : Mentoring) × (status : MentoringStatus) × (content : ℕ) × (body ≡ some (status, content))
      × (a ≡ answered (record m { status = some status }))
      × ((user == m.created_by) ≡ false)
      × ((m.mentoree == user || m.mentor == user) ≡ true)
      × ((m.created_by == m.mentor || m.created_by == m.mentoree) ≡ true)
      × (s' ≡ (record s {
        mentorings = save_mentoring (record m { status = some status }) s.mentorings;
        messages =
            s.messages ++ (record { mentoring = m.id; sender = user; content = content }) ∷ [];
      }))
respond_answers user code i body refused s s' a reached h =
    let (m, status, content, there, other, valid, done) =
      respond_ok user code i body refused s s' a h in
    let m' : Mentoring = record m { status = some status } in
    let known =
      found-holds has_creator user i s.mentorings m there (reachable-IsSound s reached).creators in
    let (answer, store) =
      sent refused _ m' _ s' a (notify_creator_ok user m' content refused _ s' a known done) in
    (
      m,
      status,
      content,
      valid,
      answer,
      other,
      found_participant user i s.mentorings m there,
      known,
      store,
    )
