-- ===== src/Mentoring/Tests.antt =====
-- Mentoring at a concrete store.
use projects_backend.Base.{
  ◌==◌, ok, ℕ, ◌≡◌, refl, true, false, ◌||◌, Option, none, some, List, [], ◌∷◌, ◌++◌,
}
use projects_backend.Mentoring.{
  MentoringStatus, accepted, Skill, Mentoring, Message, Store, answered, contact_mentor, respond,
  create_mentoring, save_mentoring, to_mentor, deletion, destroy, deleted, handle,
}
use projects_backend.Mentoring.Reach.{Reaches, start, step, IsSound}
use projects_backend.Mentoring.Sound.{reachable-IsSound}
use projects_backend.Mentoring.Respond.{respond_answers}

abbrev skills : List Skill
skills = record { id = 7; user = 40; can_mentor = true; needs_mentor = false } ∷ []

abbrev empty : Store
empty = record {
  organizations = 5 ∷ [];
  skills = skills;
  mentorings = [];
  messages = [];
  next_mentoring = 1;
}

abbrev asked : Mentoring
asked = record {
  id = 1;
  organization = 5;
  skill = 7;
  mentor = 40;
  mentoree = 41;
  status = none;
  created_by = 41;
}

abbrev question : Message
question = record { mentoring = 1; sender = 41; content = 100 }

abbrev contacted : Store
contacted = record empty { mentorings = asked ∷ []; messages = question ∷ []; next_mentoring = 2 }

abbrev reply : Message
reply = record { mentoring = 1; sender = 40; content = 101 }

abbrev agreed : Mentoring
agreed = record asked { status = some accepted }

abbrev replied : Store
replied = record contacted { mentorings = agreed ∷ []; messages = question ∷ reply ∷ [] }

contact_test : handle (to_mentor 41 5 7 (some 100) false) empty ≡ ok (answered asked, contacted)
unfolding handle contact_mentor create_mentoring
contact_test = refl

respond_test : respond 40 5 1 (some (accepted, 101)) false contacted ≡ ok (answered agreed, replied)
unfolding respond
respond_test = refl

-- the mentoring goes with its messages, and its identifier is not used again
destroy_test : handle (deletion 40 1) replied ≡ ok (deleted, record empty { next_mentoring = 2 })
unfolding handle destroy
destroy_test = refl

contacted-Reaches : Reaches contacted
contacted-Reaches =
    step (to_mentor 41 5 7 (some 100) false) (answered asked) empty contacted
      (start (5 ∷ []) skills) contact_test

reachable-IsSound_example : IsSound contacted
reachable-IsSound_example = reachable-IsSound contacted contacted-Reaches

respond_answers_example :
    (m : Mentoring) × (status : MentoringStatus) × (content : ℕ) × (◌≡◌
      {A = Option (MentoringStatus × ℕ)}
      (some (accepted, 101))
      (some (status, content)))
    × (answered agreed ≡ answered (record m { status = some status }))
    × ((40 == m.created_by) ≡ false)
    × ((m.mentoree == 40 || m.mentor == 40) ≡ true)
    × ((m.created_by == m.mentor || m.created_by == m.mentoree) ≡ true)
    × (replied ≡ (record contacted {
      mentorings = save_mentoring (record m { status = some status }) contacted.mentorings;
      messages =
          contacted.messages ++ (record { mentoring = m.id; sender = 40; content = content }) ∷ [];
    }))
respond_answers_example =
    respond_answers 40 5 1 (some (accepted, 101)) false contacted replied (answered agreed)
      contacted-Reaches respond_test
