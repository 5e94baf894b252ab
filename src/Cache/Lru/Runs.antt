-- ===== src/Cache/Lru/Runs.antt =====
-- Whole runs of the tracker against the specification.
use s3_2_smb.Base.{ℕ, Bytes, ◌≡◌, refl, Option, none, List, [], ◌∷◌, arith}
use s3_2_smb.Cache.Lru.{LruEntry, LruTracker, add_with_time, touch, remove, evict_oldest}
use s3_2_smb.Cache.Lru.Invariant.{
  IsValid, add_with_time-IsValid, touch-IsValid, remove-IsValid, evict_oldest-IsValid,
}
use s3_2_smb.Cache.Lru.Refinement.{
  values, lookup, without, insert, refresh, drop_last, add_with_time-insert, touch-refresh,
  remove-without, evict_oldest-drop_last,
}

-- A call of the tracker.
pub data Call : Type 0 where
  adding : LruEntry → Call
  touching : ℕ → Bytes → Bytes → Call
  removing : Bytes → Call
  evicting : Call

-- A call's new state, and the entry that it returns.
unfoldable pub step : LruTracker → Call → LruTracker × Option LruEntry
step t (adding e) = (add_with_time t e.key e.path e.size e.access_time, none)
step t (touching now key path) = (touch now t key path, none)
step t (removing key) = remove t key
step t evicting = evict_oldest t

-- The specification's.
unfoldable pub spec_step : List LruEntry → Call → List LruEntry × Option LruEntry
unfolding lookup without insert refresh drop_last
spec_step l (adding e) = (insert e l, none)
spec_step l (touching now key path) = (refresh now key l, none)
spec_step l (removing key) = (without key l, lookup key l)
spec_step l evicting = drop_last l

unfoldable pub run : List Call → LruTracker → LruTracker × List (Option LruEntry)
unfolding step
run [] t = (t, [])
run (c ∷ calls) t =
    let (t', out) = step t c in let (last, outs) = run calls t' in (last, out ∷ outs)

unfoldable pub spec_run : List Call → List LruEntry → List LruEntry × List (Option LruEntry)
unfolding spec_step
spec_run [] l = (l, [])
spec_run (c ∷ calls) l =
    let (l', out) = spec_step l c in let (last, outs) = spec_run calls l' in (last, out ∷ outs)

pub step-IsValid : (c : Call) (t : LruTracker) → IsValid t → IsValid (step t c).0
unfolding step
step-IsValid (adding e) t v = add_with_time-IsValid t e.key e.path e.size e.access_time v
step-IsValid (touching now key path) t v = touch-IsValid now t key path v
step-IsValid (removing key) t v = remove-IsValid t key v
step-IsValid evicting t v = evict_oldest-IsValid t v

step-spec :
    (c : Call) (t : LruTracker)
    → IsValid t
    → (values (step t c).0.list, (step t c).1) ≡ spec_step (values t.list) c
unfolding step spec_step
step-spec (adding e) t v =
    let same = add_with_time-insert t v e.key e.path e.size e.access_time in λ i. (same i, none)
step-spec (touching now key path) t v =
    let same = touch-refresh t v now key path in λ i. (same i, none)
step-spec (removing key) t v = let (left, out) = remove-without t v key in λ i. (left i, out i)
step-spec evicting t v = evict_oldest-drop_last t v

-- From a valid tracker, any sequence of calls leaves a valid tracker, returns what the
-- specification returns and holds the entries that the specification holds, in order of use.
pub run-spec :
    (calls : List Call) (t : LruTracker)
    → IsValid t
    → IsValid (run calls t).0
      × ((values (run calls t).0.list, (run calls t).1) ≡ spec_run calls (values t.list))
unfolding run spec_run
run-spec [] t v = (v, refl)
run-spec (c ∷ calls) t v =
    let (valid, same) = run-spec calls (step t c).0 (step-IsValid c t v) in
    (valid, ground (arith, step-spec c t v))
