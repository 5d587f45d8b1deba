-- ===== src/Runtime/Scheduler/Worker/Walk.antt =====
-- scheduler.rs: the walk over the active requests that `remove_cancelled` and `remove_finished` share.
use qwen3_tts_native.Base.{
  ℕ, zero, suc, ◌+◌, ◌<◌, ◌≤◌, ◌≡◌, refl, subst, sym, ap, ◌∙◌, Bool, true, false, length, some,
  get_elem?, arith, Option-cases, Bool-cases, inl, inr, ◌⊎◌, ◌==◌, ==_iff,
}
use qwen3_tts_native.Runtime.Scheduler.Shared.{RequestShared}
use qwen3_tts_native.Runtime.Scheduler.Backend.{Backend}
use qwen3_tts_native.Runtime.Scheduler.Worker.{
  Worker, ActiveRequest, remove_loop, remove_step, remove_at, swap_remove,
}
use qwen3_tts_native.Runtime.Scheduler.Worker.Balance.{length-swap_remove}
use qwen3_tts_native.Runtime.Scheduler.Worker.SwapRemove.{
  get_elem?-some_lt, get_elem?-none_le, get_elem?-swap_remove, swap_remove-keeps,
}

module _ {B : Backend} (test : RequestShared → Bool) where
  -- The request is among the active ones, at some place.
  abbrev pub IsActive : Worker B → ActiveRequest B.Session → Type 0
  IsActive w a = (k : ℕ) × (get_elem? w.active k ≡ some a)

  -- From `w` to `r` exactly the active requests that pass the test have gone.
  pub record Removes (w r : Worker B) : Type 0 where
    -- None that is left passes.
    pub cleared :
        (a : ActiveRequest B.Session) → IsActive r a → test (r.store a.record_of.id) ≡ false
    -- One that passed is retired.
    pub retired :
        (a : ActiveRequest B.Session)
        → IsActive w a
        → test (w.store a.record_of.id) ≡ true
        → (r.store a.record_of.id).retired ≡ true
    -- One that did not pass is still active.
    pub kept :
        (a : ActiveRequest B.Session)
        → IsActive w a
        → test (w.store a.record_of.id) ≡ false
        → IsActive r a
    -- A request that does not pass is not touched.
    pub untouched : (j : ℕ) → test (w.store j) ≡ false → r.store j ≡ w.store j

  -- One removal, of a request that passes the test, touches that request only and retires it.
  pub record RemovesOne (a : ActiveRequest B.Session) (w r : Worker B) : Type 0 where
    pub same_active : r.active ≡ w.active
    pub same_test : (j : ℕ) → test (r.store j) ≡ test (w.store j)
    pub retires : (r.store a.record_of.id).retired ≡ true
    pub stays : (j : ℕ) → (w.store j).retired ≡ true → (r.store j).retired ≡ true
    pub others : (j : ℕ) → test (w.store j) ≡ false → r.store j ≡ w.store j

  module _ (removal : ActiveRequest B.Session → Worker B → Worker B)
      (removes_one : (a : ActiveRequest B.Session) (w : Worker B)
        → test (w.store a.record_of.id) ≡ true
        → RemovesOne a w (removal a w)) where
    -- The walk stands at `index`: none before it passes.
    abbrev Passed : ℕ → Worker B → Type 0
    Passed index w =
        (k : ℕ) (a : ActiveRequest B.Session)
        → k < index
        → get_elem? w.active k ≡ some a
        → test (w.store a.record_of.id) ≡ false

    pub record Walks (w r : Worker B) : Type 0 where
      pub removes : Removes w r
      pub stays : (j : ℕ) → (w.store j).retired ≡ true → (r.store j).retired ≡ true

    -- At the end of the list there is nothing left to remove.
    done-Walks : (index : ℕ) (w : Worker B) → Passed index w → length w.active ≤ index → Walks w w
    done-Walks index w p l =
        let passes = λ (a : ActiveRequest B.Session) (i : IsActive w a).
          p i.0 a (omega (arith, l, get_elem?-some_lt w.active i.0 i.1)) i.1 in
        record {
          removes = record {
            cleared = passes;
            retired = λ a i t. absurd (cc (sym (passes a i) ∙ t));
            kept = λ a i t. i;
            untouched = λ j t. refl;
          };
          stays = λ j t. t;
        }

    -- The walk goes on behind a request that it took out.
    module _ (index : ℕ) (w : Worker B) (a : ActiveRequest B.Session)
        (here : get_elem? w.active index ≡ some a)
        (passes : test (w.store a.record_of.id) ≡ true) where
      abbrev less : Worker B
      less = record w { active = swap_remove index w.active }

      one : RemovesOne a less (removal a less)
      one = removes_one a less passes

      inside : index < length w.active
      inside = get_elem?-some_lt w.active index here

      -- Another active request is still active.
      other_stays :
          (x : ActiveRequest B.Session) (k : ℕ)
          → get_elem? w.active k ≡ some x
          → (x ≡ a) ⊎ IsActive (removal a less) x
      other_stays x k e = elim (Bool-cases (k == index)) [
        | inl q ↦ inl (cc (e, here, (==_iff k index).0 q))
        | inr q ↦
            let (m, f) =
              swap_remove-keeps w.active index k (λ s. absurd (cc (q, (==_iff k index).1 s))) inside
                e in
            inr (m, ap (λ l. get_elem? l m) one.same_active ∙ f)
      ]

      removed-Passed : Passed index w → Passed index (removal a less)
      removed-Passed p k x l e =
          one.same_test x.record_of.id
          ∙ p k x l (
              sym (get_elem?-swap_remove w.active index k l inside)
              ∙ ap (λ l. get_elem? l k) (sym one.same_active)
              ∙ e)

      removed-Walks : {r : Worker B} → Walks (removal a less) r → Walks w r
      removed-Walks {r} v = record {
        removes = record {
          cleared = v.removes.cleared;
          retired = λ x (k, e) t. elim (other_stays x k e) [
            | inl s ↦
                subst (λ x. (r.store x.record_of.id).retired ≡ true) (sym s)
                  (v.stays a.record_of.id one.retires)
            | inr i ↦ v.removes.retired x i (one.same_test x.record_of.id ∙ t)
          ];
          kept = λ x (k, e) t. elim (other_stays x k e) [
            | inl s ↦ absurd (cc (s, passes, t))
            | inr i ↦ v.removes.kept x i (one.same_test x.record_of.id ∙ t)
          ];
          untouched = λ j t. v.removes.untouched j (one.same_test j ∙ t) ∙ one.others j t;
        };
        stays = λ j t. v.stays j (one.stays j t);
      }

      removed-length : length (removal a less).active + 1 ≡ length w.active
      removed-length =
          omega (arith, ap length one.same_active, length-swap_remove index w.active, inside)

    -- The walk goes on behind a request that it leaves.
    left-Passed :
        (index : ℕ) (w : Worker B) (a : ActiveRequest B.Session)
        → get_elem? w.active index ≡ some a
        → test (w.store a.record_of.id) ≡ false
        → Passed index w
        → Passed (suc index) w
    left-Passed index w a here t p k x l e = elim (Bool-cases (k == index)) [
      | inl q ↦ cc (e, here, (==_iff k index).0 q, t)
      | inr q ↦ p k x (ground (arith, q, l)) e
    ]

    pub remove_loop-Walks :
        (fuel index : ℕ) (w : Worker B)
        → Passed index w
        → length w.active ≤ index + fuel
        → Walks w (remove_loop test removal fuel index w)
    unfolding remove_loop remove_at
    remove_loop-Walks zero index w p l = done-Walks index w p (omega (arith, l))
    remove_loop-Walks (suc fuel) index w p l = elim (Option-cases (get_elem? w.active index)) [
      | inl e ↦ rw (e, remove_step) (done-Walks index w p (get_elem?-none_le w.active index e))
      | inr (a, e) ↦
          rw (e, remove_step)
            (elim (Bool-cases (test (w.store a.record_of.id))) [
              | inl t ↦
                  rw (t, remove_step)
                    (removed-Walks index w a e t (
                      remove_loop-Walks fuel index _ (removed-Passed index w a e t p)
                        (omega (arith, l, removed-length index w a e t))))
              | inr t ↦
                  rw (t, remove_step)
                    (remove_loop-Walks fuel (suc index) w (left-Passed index w a e t p)
                      (omega (arith, l)))
            ])
    ]
