-- ===== src/Scenarios/Approval.antt =====
-- approval.go at concrete inputs: two people vote, one after the other.
use aegisbastion.Common.{
  ℕ, ◌≡◌, ◌≢◌, refl, Bool, true, List, [], ◌∷◌, Option, none, some, Text, codes, In, Result, ok,
  err,
}
use aegisbastion.Gatekeeper.Capreg.{r3}
use aegisbastion.Gatekeeper.Approval.{Approval, Vote, pending, granted, decide, find_valid_approval}
use aegisbastion.Gatekeeper.Approval.FourEyes.{IsFourEyes, decide-IsFourEyes}
use aegisbastion.Gatekeeper.Approval.Found.{IsFor, HasTwo, find_valid_approval-HasTwo}

abbrev author : Text → ℕ → Option Text
author roe version = some (codes "eve")

abbrev has_role : Text → Text → Bool
has_role org principal = true

abbrev vote_of : Text → Vote
vote_of who = record { approver = who; approved = true; at = 5 }

abbrev opened : Approval
opened = record {
  approval_id = codes "appr_1";
  org_id = codes "org";
  roe_id = codes "roe_1";
  roe_version = 2;
  capability = codes "redteam.c2";
  risk_class = r3;
  targets = codes "a.com" ∷ [];
  requester = codes "req";
  state = pending;
  created_at = 1;
  expires_at = 90;
  votes = [];
}

abbrev one_vote : Approval
one_vote = record opened { votes = vote_of (codes "ann") ∷ [] }

abbrev two_votes : Approval
two_votes = record opened {
  votes = vote_of (codes "ann") ∷ vote_of (codes "bob") ∷ [];
  state = granted;
}

opened-IsFourEyes : IsFourEyes author has_role opened
opened-IsFourEyes = record {
  distinct = tt;
  not_requester = λ v m. absurd m;
  not_author = λ v c m. absurd m;
  two = λ e. cc;
}

first : decide (some author) has_role 5 opened (vote_of (codes "ann")) ≡ ok one_vote
unfolding decide aegisbastion.Gatekeeper.Approval.vote_on aegisbastion.Common.text_eq
    aegisbastion.Gatekeeper.Approval.check_author aegisbastion.Common.member
    aegisbastion.Gatekeeper.Approval.next_state
first = refl

second : decide (some author) has_role 6 one_vote (vote_of (codes "bob")) ≡ ok two_votes
unfolding decide aegisbastion.Gatekeeper.Approval.vote_on aegisbastion.Common.text_eq
    aegisbastion.Gatekeeper.Approval.check_author aegisbastion.Common.member
    aegisbastion.Gatekeeper.Approval.next_state
second = refl

decide-IsFourEyes_example : IsFourEyes author has_role one_vote
decide-IsFourEyes_example =
    decide-IsFourEyes author has_role 5 opened one_vote (vote_of (codes "ann")) opened-IsFourEyes
      first

two_votes-IsFourEyes : IsFourEyes author has_role two_votes
two_votes-IsFourEyes =
    decide-IsFourEyes author has_role 6 one_vote two_votes (vote_of (codes "bob"))
      (decide-IsFourEyes author has_role 5 opened one_vote (vote_of (codes "ann")) opened-IsFourEyes
        first)
      second

is_found :
    find_valid_approval
      (codes "roe_1")
      2
      (codes "redteam.c2")
      (codes "a.com" ∷ [])
      7
      (two_votes ∷ [])
    ≡ some two_votes
unfolding find_valid_approval aegisbastion.Gatekeeper.Approval.is_valid_for
    aegisbastion.Common.text_eq aegisbastion.Common.all aegisbastion.Common.member
is_found = refl

find_valid_approval-HasTwo_example :
    IsFor (codes "roe_1") 2 (codes "redteam.c2") (codes "a.com" ∷ []) 7 two_votes
    × HasTwo two_votes.votes
    × ((v : Vote) → In v two_votes.votes → v.approver ≢ two_votes.requester)
find_valid_approval-HasTwo_example =
    find_valid_approval-HasTwo author has_role (codes "roe_1") 2 (codes "redteam.c2")
      (codes "a.com" ∷ []) 7 (two_votes ∷ []) two_votes (two_votes-IsFourEyes, tt) is_found
