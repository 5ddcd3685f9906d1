-- ===== src/Generator/Run/Leaves.antt =====
-- What a run of `main` of src/probSemSharedMemRestaurant.c leaves behind, piece by piece.
use so2023_trabalho.Base.{
  ℕ, zero, suc, ◌+◌, ◌≡◌, refl, ap, ◌⊎◌, Bool-cases, inl, inr, Option, none, some, List, [], ◌∷◌, ℤ,
  pos, negsuc, is_minus_one,
}
use so2023_trabalho.Semaphore.{Call, result, sleeping, hung, aborted}
use so2023_trabalho.Generator.Run.{
  Effect, Exit, succeeds, fails, crashes, waits_on, strays, Run, check, note, check_call,
  check_fork, check_exec, replaced, forks,
}

-- With a success, the effects are `es`, or they are `fs` in a process where `child` holds.
abbrev pub Leaves : Type 0 → List Effect → List Effect → Run → Type 0
Leaves child es fs (succeeds, gs) = (gs ≡ es) ⊎ ((gs ≡ fs) × child)
Leaves child es fs (fails, gs) = Unit
Leaves child es fs (crashes, gs) = Unit
Leaves child es fs (waits_on, gs) = Unit
Leaves child es fs (replaced, gs) = Unit
Leaves child es fs (strays, gs) = Unit

module _ (child : Type 0) where
  pub check-Leaves :
      (es fs : List Effect) (r : ℤ) (next : Run)
      → Leaves child es fs next
      → Leaves child es fs (check r next)
  check-Leaves es fs r next h = elim (Bool-cases (is_minus_one r)) [
    | inl e ↦ rw e tt
    | inr e ↦ rw e h
  ]

  pub note-Leaves :
      (es fs : List Effect) (e : Effect) (next : Run)
      → Leaves child es fs next
      → Leaves child (e ∷ es) (e ∷ fs) (note e next)
  note-Leaves es fs e (succeeds, gs) (inl h) = inl (ap (λ l. e ∷ l) h)
  note-Leaves es fs e (succeeds, gs) (inr (h, c)) = inr (ap (λ l. e ∷ l) h, c)
  note-Leaves es fs e (fails, gs) h = tt
  note-Leaves es fs e (crashes, gs) h = tt
  note-Leaves es fs e (waits_on, gs) h = tt
  note-Leaves es fs e (replaced, gs) h = tt
  note-Leaves es fs e (strays, gs) h = tt

  pub call-Leaves :
      (es fs : List Effect) (c : Call) (next : (ℕ → ℕ) → Run)
      → ((sem : ℕ → ℕ) → Leaves child es fs (next sem))
      → Leaves child es fs (check_call c next)
  call-Leaves es fs (result r sem) next h = check-Leaves es fs r (next sem) (h sem)
  call-Leaves es fs sleeping next h = tt
  call-Leaves es fs hung next h = tt
  call-Leaves es fs aborted next h = tt

  pub check_fork-Leaves :
      (es fs : List Effect) (r : ℤ) (c next : Run)
      → (r ≡ pos 0 → Leaves child es fs c)
      → Leaves child es fs next
      → Leaves child es fs (check_fork r c next)
  check_fork-Leaves es fs (pos zero) c next h g = h refl
  check_fork-Leaves es fs (pos (suc pid)) c next h g = g
  check_fork-Leaves es fs (negsuc _) c next h g = tt

  pub check_exec-Leaves :
      (es fs : List Effect) (r : Option ℤ) (next : Run)
      → Leaves child es fs next
      → Leaves child es fs (check_exec r next)
  check_exec-Leaves es fs none next h = tt
  check_exec-Leaves es fs (some (pos _)) next h = h
  check_exec-Leaves es fs (some (negsuc _)) next h = tt

  pub forks-Leaves :
      (es fs : List Effect) (fork : ℕ → ℤ) (exec : ℕ → Option ℤ) (k i : ℕ) (next : Run)
      → Leaves child es fs next
      → Leaves child es fs (forks fork exec k i next)
  unfolding forks
  forks-Leaves es fs fork exec zero i next h = h
  forks-Leaves es fs fork exec (suc k) i next h =
      let rest = forks fork exec k (i + 1) next in
      let kept : Leaves child es fs rest = forks-Leaves es fs fork exec k (i + 1) next h in
      check_fork-Leaves es fs (fork i) (check_exec (exec i) rest) rest
        (λ _. check_exec-Leaves es fs (exec i) rest kept) kept

  pub end-Leaves : (fs : List Effect) (ret : Exit) → Leaves child [] fs (ret, [])
  end-Leaves fs succeeds = inl refl
  end-Leaves fs fails = tt
  end-Leaves fs crashes = tt
  end-Leaves fs waits_on = tt
  end-Leaves fs replaced = tt
  end-Leaves fs strays = tt

-- Where no child can be, the second list is any.
pub parent-Leaves :
    (child : Type 0) (es fs : List Effect) (x : Run) → Leaves ⊥ es es x → Leaves child es fs x
parent-Leaves child es fs (succeeds, gs) (inl h) = inl h
parent-Leaves child es fs (succeeds, gs) (inr (_, c)) = elim c [ ]
parent-Leaves child es fs (fails, gs) h = tt
parent-Leaves child es fs (crashes, gs) h = tt
parent-Leaves child es fs (waits_on, gs) h = tt
parent-Leaves child es fs (replaced, gs) h = tt
parent-Leaves child es fs (strays, gs) h = tt
