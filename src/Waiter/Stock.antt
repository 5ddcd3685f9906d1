-- ===== src/Waiter/Stock.antt =====
-- The ring of orders of src/semSharedMemWaiter.c, whatever is counted into it: what holds of every order
-- that is put in holds of every one that is taken out.
use so2023_trabalho.Base.{
  ℕ, ◌+◌, ◌-◌, ◌%◌, ◌<◌, ◌≡◌, ◌≢◌, refl, inl, inr, Bool-cases, ◌==◌, update, arith,
}
use so2023_trabalho.Shared.{Request, num_tables}
use so2023_trabalho.Waiter.{Orders, init_orders}

pub record IsStocked (p : Request → Type 0) (q : Orders) : Type 0 where
  pub write_at : q.q_write_next ≡ (q.q_read_next + q.q_length) % num_tables
  pub read_lt : q.q_read_next < num_tables
  pub held : (j : ℕ) → j < q.q_length → p (q.queue ((q.q_read_next + j) % num_tables))

pub init-IsStocked : (p : Request → Type 0) → IsStocked p init_orders
unfolding init_orders
init-IsStocked p = record {
  write_at = refl;
  read_lt = omega arith;
  held = λ j h. absurd (omega arith);
}

module _ (p : Request → Type 0) (q : Orders) (v : IsStocked p q) where
  pub oldest_held : q.q_length ≢ 0 → p (q.queue q.q_read_next)
  oldest_held some =
      let first : (q.q_read_next + 0) % num_tables ≡ q.q_read_next = omega (arith, v.read_lt) in
      rw first at (v.held 0 (omega arith))

  pub popped-IsStocked :
      q.q_length ≢ 0
      → IsStocked p
          (record q { q_read_next = (q.q_read_next + 1) % num_tables; q_length = q.q_length - 1 })
  popped-IsStocked some = record {
    write_at = omega (arith, v.write_at, v.read_lt);
    read_lt = omega arith;
    held = λ j h.
        let slot : ((q.q_read_next + 1) % num_tables + j) % num_tables
            ≡ (q.q_read_next + (j + 1)) % num_tables =
          omega arith in
        rw slot (v.held (j + 1) (omega arith));
  }

  pub pushed-IsStocked :
      (x : Request)
      → p x
      → IsStocked p (record q {
        queue = update q.queue q.q_write_next x;
        q_write_next = (q.q_write_next + 1) % num_tables;
        q_length = q.q_length + 1;
      })
  pushed-IsStocked x h = record {
    write_at = omega (arith, v.write_at, v.read_lt);
    read_lt = v.read_lt;
    held = λ j lt. elim (Bool-cases (q.q_write_next == (q.q_read_next + j) % num_tables)) [
      | inl e ↦ rw e h
      | inr e ↦ rw e (v.held j (ground (arith, v.write_at)))
    ];
  }
