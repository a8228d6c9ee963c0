-- ===== src/Control/Lookup.antt =====
-- What a lookup by request ID finds after an update and after an insertion.
use simple_coding_agent.Base.{
  String, ◌≡◌, refl, Bool, false, Option, none, some, List, [], ◌∷◌, ◌++◌, arith, text_eq,
  text_eq_refl, text_eq→≡,
}
use simple_coding_agent.Control.Types.{Acknowledgement, Kind, Payload, Command}
use simple_coding_agent.Control.Table.{find, touch, update, new_command}

-- `touch` on what a lookup found.
abbrev pub touched :
    (Command → Bool) → Acknowledgement → String → String → Option Command → Option Command
touched p a d t none = none
touched p a d t (some c) = some (touch p a d t c)

-- The columns that no statement writes after the insertion.
pub record SameRow (c c' : Command) : Type 0 where
  pub request_id : c'.request_id ≡ c.request_id
  pub sequence : c'.sequence ≡ c.sequence
  pub kind : c'.kind ≡ c.kind
  pub payload : c'.payload ≡ c.payload
  pub created_at : c'.created_at ≡ c.created_at

pub SameRow-refl : (c : Command) → SameRow c c
SameRow-refl c = ground arith

pub SameRow-trans : (a b c : Command) → SameRow a b → SameRow b c → SameRow a c
SameRow-trans a b c f g = ground arith

module _ (p : Command → Bool) (a : Acknowledgement) (d t : String) where
  pub touch-SameRow : (c : Command) → SameRow c (touch p a d t c)
  unfolding touch
  touch-SameRow c = ground arith

  pub touch_id : (c : Command) → (touch p a d t c).request_id ≡ c.request_id
  touch_id c = (touch-SameRow c).request_id

  pub touch_miss : (c : Command) → p c ≡ false → touch p a d t c ≡ c
  unfolding touch
  touch_miss c h = rw h

  pub find-update :
      (r : String) (cs : List Command) → find r (update p a d t cs) ≡ touched p a d t (find r cs)
  unfolding find update
  find-update r [] = refl
  find-update r (c ∷ cs) = ground (arith, find-update r cs, touch_id c)

pub find-nil : (r : String) → find r [] ≡ none
unfolding find
find-nil r = refl

pub find-append_some :
    (r : String) (cs ds : List Command) {x : Command}
    → find r cs ≡ some x
    → find r (cs ++ ds) ≡ some x
unfolding find
find-append_some r [] ds h = ground arith
find-append_some r (c ∷ cs) ds {x} h = ground (arith, find-append_some r cs ds {x = x})

pub find-append_none :
    (r : String) (cs ds : List Command) → find r cs ≡ none → find r (cs ++ ds) ≡ find r ds
unfolding find
find-append_none r [] ds h = refl
find-append_none r (c ∷ cs) ds h = ground (arith, find-append_none r cs ds)

-- Another request ID is found as before.
pub find-append_other :
    (q : String) (cs : List Command) (x : Command)
    → text_eq x.request_id q ≡ false
    → find q (cs ++ x ∷ []) ≡ find q cs
unfolding find
find-append_other q [] x e = rw e
find-append_other q (c ∷ cs) x e = ground (arith, find-append_other q cs x e)

pub find_id : (r : String) (cs : List Command) (c : Command) → find r cs ≡ some c → c.request_id ≡ r
unfolding find
find_id r [] c h = ground arith
find_id r (x ∷ cs) c h = ground (arith, find_id r cs c, text_eq→≡ x.request_id r)

module _ (r : String) (k : Kind) (p : Payload) (a : Acknowledgement) (d t : String) where
  pub find-new_command :
      (cs : List Command)
      → find r cs ≡ none
      → find r (cs ++ new_command r k p a d t cs ∷ []) ≡ some (new_command r k p a d t cs)
  unfolding find new_command
  find-new_command cs h = rw (find-append_none r cs _ h) (rw text_eq_refl refl)
