-- ===== src/Receiver/Direct/Fate.antt =====
-- What becomes of the messages that the callback of a direct receiver is called with.
use pubsubplus_go_client.Prelude.{◌≡◌, List, [], ◌∷◌, ◌++◌}
use pubsubplus_go_client.Receiver.Direct.{
  Direct, Event, Strategy, Callback, idle, pushing, full, removed, repushing, pushed, evicted,
  dropped, refused, blocked, Op, calls_back,
}

module _ {M : Type 0} where
  -- The call of a callback that is not in the midst of another.
  abbrev called_of : Op M → Event M → List M
  called_of (calls_back m) blocked = []
  called_of (calls_back m) e = m ∷ []
  called_of op e = []

  abbrev settled_of : Event M → List M
  settled_of (pushed m f) = m ∷ []
  settled_of (dropped m) = m ∷ []
  settled_of (refused m) = m ∷ []
  settled_of _ = []

  abbrev pub called_all : List (Op M) → List (Event M) → List M
  called_all (op ∷ ops) (e ∷ es) = called_of op e ++ called_all ops es
  called_all _ _ = []

  abbrev pub settled_all : List (Event M) → List M
  settled_all [] = []
  settled_all (e ∷ es) = settled_of e ++ settled_all es

  abbrev pub held_by : Callback M → List M
  held_by idle = []
  held_by (pushing m f) = m ∷ []
  held_by (full m f) = m ∷ []
  held_by (removed m f) = m ∷ []
  held_by (repushing m f d) = m ∷ []

  -- Drop oldest drops no message that comes, drop latest takes none out of the buffer.
  abbrev pub Fits : Strategy → Event M → Type 0
  Fits Strategy.drop_oldest (dropped m) = ⊥
  Fits Strategy.drop_latest (evicted m f) = ⊥
  Fits k e = Unit

  -- Under drop latest the callback ends with its first push.
  abbrev IsStage : Strategy → Callback M → Type 0
  IsStage Strategy.drop_latest (full m f) = ⊥
  IsStage Strategy.drop_latest (removed m f) = ⊥
  IsStage Strategy.drop_latest (repushing m f d) = ⊥
  IsStage k c = Unit

  record Kept (k : Strategy) (op : Op M) (s : Direct M) (r : Direct M × Event M) : Type 0 where
    strategy : r.0.strategy ≡ k
    stage : IsStage k r.0.callback
    fits : Fits k r.1
    order : held_by s.callback ++ called_of op r.1 ≡ settled_of r.1 ++ held_by r.0.callback
