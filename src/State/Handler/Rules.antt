-- ===== src/State/Handler/Rules.antt =====
-- daemon/state.c: the outcomes of a visit, as rules.
use autofs.Prelude.{ℕ, ◌+◌, true, false, not, ◌&&◌, ◌==◌, ◌≡◌, modify, if_both, not_flip, ◌∷◌}
use autofs.State.{Task, World, Env}
use autofs.State.Handler.{uncancel, start_task, list_del, first_visit, promote, wake_visit}

module _ {ℓ} (P : ℕ × World → Type ℓ) (seen : ℕ) (env : Env) (task : Task) (w : World) where
  pub first_visit_rule :
      (task.cancel ≡ true → P (seen, list_del seen w))
      → (task.cancel ≡ false
          → (start_task seen env task w).0 ≡ true
          → P (seen + 1, (start_task seen env task w).1))
      → (task.cancel ≡ false
          → (start_task seen env task w).0 ≡ false
          → P (seen, list_del seen (start_task seen env task w).1))
      → P (first_visit seen env task w)
  unfolding first_visit
  first_visit_rule canceled started failed =
      if_both P task.cancel canceled
        (λ c. if_both P (start_task seen env task w).0 (started c) (failed c))

  pub wake_visit_rule :
      ((task.thid == 0 && task.cancel) ≡ true → P (promote seen task.ap task.pending w))
      → (task.busy ≡ false
          → (start_task seen env task w).0 ≡ true
          → P (seen + 1, (start_task seen env task w).1))
      → (task.busy ≡ false
          → (start_task seen env task w).0 ≡ false
          → P (promote seen task.ap task.pending (start_task seen env task w).1))
      → (task.busy ≡ true → (task.thid == 0) ≡ true → P (seen + 1, w))
      → (task.cancel ≡ true
          → P (
            seen + 1,
            record w { queue = modify uncancel seen w.queue; killed = task.thid ∷ w.killed },
          ))
      → (task.done ≡ false → P (seen + 1, w))
      → (task.done ≡ true → P (promote seen task.ap task.pending w))
      → P (wake_visit seen env task w)
  unfolding wake_visit
  wake_visit_rule dropped started failed starting canceled busy finished =
      if_both P (task.thid == 0 && task.cancel) dropped (λ _.
        if_both P (not task.busy)
          (λ b.
            if_both P (start_task seen env task w).0 (started (not_flip _ _ b))
              (failed (not_flip _ _ b)))
          (λ b. if_both P (task.thid == 0) (starting (not_flip _ _ b)) (λ _.
            if_both P task.cancel canceled (λ _.
              if_both P (not task.done) (λ d. busy (not_flip _ _ d))
                (λ d. finished (not_flip _ _ d))))))
