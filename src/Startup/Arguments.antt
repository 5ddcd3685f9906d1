-- ===== src/Startup/Arguments.antt =====
-- The arguments that `main` of src/probSemSharedMemRestaurant.c passes on, and what the processes make
-- of them.
use so2023_trabalho.Base.{
  ℕ, ◌+◌, ◌≤◌, ◌<◌, ◌≡◌, refl, ap, Bool, false, Bool-cases, inl, inr, ◌||◌, ◌&&◌, not, leb, lt→ltb,
  if◌then◌else◌, List, [], ◌∷◌, ℤ, pos, negsuc, is_minus_one, length, arith,
}
use so2023_trabalho.Shared.{max_groups}
use so2023_trabalho.Logging.{show_int}
use so2023_trabalho.Logging.Columns.{show_nat-length}
use so2023_trabalho.Numerals.{strtol, int_of_long}
use so2023_trabalho.Numerals.Reads.{IsInt, strtol-show_int, int_of_int}
use so2023_trabalho.Semaphore.{Ipc, Call, result, sleeping, hung, aborted, sem_connect, mask}
use so2023_trabalho.SharedMemory.{ShmIpc, shmem_connect, shmem_attach}
use so2023_trabalho.Startup.{
  Joined, Start, fails, runs, name_size, map_block, find_block, join, with_key, start_chef,
  start_waiter, start_receptionist, start_group, too_large, wrong_id, is_empty, group_args,
  server_args,
}

-- `num[0]` and `num[1]` of `main` have room for 12 characters: every `int` that is printed into them
-- fits, with the end of the text.
pub printed_fits : (x : ℤ) → IsInt x → length (show_int x) + 1 ≤ 12
unfolding show_int
printed_fits (pos m) h = omega (arith, show_nat-length 9 m (omega arith))
printed_fits (negsuc m) h = omega (arith, show_nat-length 9 (m + 1) (omega arith))

-- A number that `start_group` lets pass.
abbrev pub IsAllowed : ℤ → Type 0
IsAllowed (pos m) = m < max_groups
IsAllowed (negsuc m) = Unit

-- What a process can rely on when its life cycle starts.
abbrev pub IsJoined : Joined → Type 0
IsJoined j =
    (length j.nfic < name_size) × (is_minus_one j.semgid ≡ false) × (is_minus_one j.shmid ≡ false)

module _ (os : Ipc) (shm : ShmIpc) where
  module _ (nfic : List ℕ) (key : ℤ) (sem sem' : ℕ → ℕ) (semgid shmid add : ℕ)
      (short : length nfic < name_size) (key_int : IsInt key)
      (connected : sem_connect os key sem ≡ result (pos semgid) sem')
      (found : shm.shmget key 1 mask ≡ pos shmid) (mapped : shm.shmat (pos shmid) ≡ pos add) where
    -- What the process has then.
    abbrev pub joined : Joined
    joined = record { nfic = nfic; key = key; semgid = pos semgid; shmid = pos shmid; sh = pos add }

    key_starts : with_key os shm nfic (show_int key) sem ≡ runs joined sem'
    unfolding with_key shmem_connect shmem_attach
    key_starts =
        rw
          (
            lt→ltb (length nfic) name_size short,
            strtol-show_int key key_int,
            int_of_int key key_int,
            join,
            connected,
            strtol-show_int key key_int,
            int_of_int key key_int,
            find_block,
            found,
            map_block,
            mapped,
          )
          refl

    -- The life cycle of a group starts with the number and the key that `main` has printed for it: where the
    -- name of the log fits, the group's number is allowed, and the set, the block and its mapping are there.
    pub group_starts :
        (g : ℕ) (err : List ℕ)
        → g < max_groups
        → start_group os shm (group_args g nfic key err) sem ≡ (pos g, runs joined sem')
    unfolding start_group group_args
    group_starts g err h =
        let small : leb max_groups g ≡ false = ground arith in
        rw (strtol-show_int (pos g) (omega arith), int_of_int (pos g) (omega arith), small)
          (ap (λ x. (pos g, x)) key_starts)

    -- A negative number is compared as a signed one: the life cycle of a group with such a number starts,
    -- too, where everything else is there.
    pub negative_starts :
        (m : ℕ) (program err : List ℕ)
        → IsInt (negsuc m)
        → start_group os shm (program ∷ show_int (negsuc m) ∷ nfic ∷ show_int key ∷ err ∷ []) sem
          ≡ (negsuc m, runs joined sem')
    unfolding start_group
    negative_starts m program err h =
        rw (strtol-show_int (negsuc m) h, int_of_int (negsuc m) h)
          (ap (λ x. (negsuc m, x)) key_starts)

    -- So do the life cycles of the chef, of the waiter and of the receptionist, with the same key, name, ids
    -- and address.
    pub servers_start :
        (chef waiter receptionist err : List ℕ)
        → (start_chef os shm (server_args chef nfic key err) sem ≡ runs joined sem')
          × (start_waiter os shm (server_args waiter nfic key err) sem ≡ runs joined sem')
          × (start_receptionist os shm (server_args receptionist nfic key err) sem
              ≡ runs joined sem')
    unfolding start_chef start_waiter start_receptionist server_args
    servers_start chef waiter receptionist err = (key_starts, key_starts, key_starts)

  map_sound :
      (nfic : List ℕ) (key semgid shmid : ℤ) (sem sem' : ℕ → ℕ) (j : Joined)
      → map_block os shm nfic key semgid shmid sem ≡ runs j sem'
      → (j.nfic ≡ nfic) × (j.semgid ≡ semgid) × (j.shmid ≡ shmid)
  unfolding map_block
  map_sound nfic key semgid shmid sem sem' j h = ground arith

  find_sound :
      (nfic : List ℕ) (key semgid : ℤ) (sem sem' : ℕ → ℕ) (j : Joined)
      → find_block os shm nfic key semgid sem ≡ runs j sem'
      → (j.nfic ≡ nfic) × (j.semgid ≡ semgid) × (is_minus_one j.shmid ≡ false)
  unfolding find_block
  find_sound nfic key semgid sem sem' j h =
      ground (arith, map_sound nfic key semgid (shmem_connect shm key) sem sem' j)

  join_sound :
      (nfic : List ℕ) (key : ℤ) (c : Call) (sem' : ℕ → ℕ) (j : Joined)
      → join os shm nfic key c ≡ runs j sem'
      → (j.nfic ≡ nfic) × (is_minus_one j.semgid ≡ false) × (is_minus_one j.shmid ≡ false)
  unfolding join
  join_sound nfic key (result semgid sem) sem' j h =
      ground (arith, find_sound nfic key semgid sem sem' j)
  join_sound nfic key sleeping sem' j h = cc
  join_sound nfic key hung sem' j h = cc
  join_sound nfic key aborted sem' j h = cc

  key_sound :
      (nfic text : List ℕ) (sem sem' : ℕ → ℕ) (j : Joined)
      → with_key os shm nfic text sem ≡ runs j sem'
      → IsJoined j
  unfolding with_key
  key_sound nfic text sem sem' j h =
      let key = int_of_long ((strtol text).0) in
      ground (arith, join_sound nfic key (sem_connect os key sem) sem' j)

  passed_sound :
      (b : Bool) (m n : ℤ) (nfic text : List ℕ) (sem sem' : ℕ → ℕ) (j : Joined)
      → ◌≡◌ {A = ℤ × Start}
          (if not b || too_large m then (m, fails wrong_id) else (m, with_key os shm nfic text sem))
          (n, runs j sem')
      → IsAllowed n × IsJoined j
  passed_sound b (pos m) n nfic text sem sem' j h =
      elim (Bool-cases (b && not (leb max_groups m))) [
        | inl e ↦ ground (arith, key_sound nfic text sem sem' j)
        | inr e ↦ ground arith
      ]
  passed_sound b (negsuc m) n nfic text sem sem' j h =
      ground (arith, key_sound nfic text sem sem' j)

  -- Whatever the arguments and whatever the system answers: where the life cycle of a group starts, there
  -- were five arguments, the name of the log file fits into its array, the number is negative or below
  -- `MAXGROUPS`, and neither the id of the set nor that of the block is -1.
  pub started_group :
      (argv : List (List ℕ)) (sem sem' : ℕ → ℕ) (n : ℤ) (j : Joined)
      → start_group os shm argv sem ≡ (n, runs j sem')
      → (length argv ≡ 5) × IsAllowed n × IsJoined j
  unfolding start_group
  started_group (program ∷ id_text ∷ nfic ∷ key_text ∷ err ∷ []) sem sem' n j h =
      let (allowed, holds) =
        passed_sound (is_empty ((strtol id_text).1)) (int_of_long ((strtol id_text).0)) n nfic
          key_text sem sem' j h in
      (refl, allowed, holds)
  started_group [] sem sem' n j h = ground arith
  started_group (a ∷ []) sem sem' n j h = ground arith
  started_group (a ∷ b ∷ []) sem sem' n j h = ground arith
  started_group (a ∷ b ∷ c ∷ []) sem sem' n j h = ground arith
  started_group (a ∷ b ∷ c ∷ d ∷ []) sem sem' n j h = ground arith
  started_group (a ∷ b ∷ c ∷ d ∷ e ∷ f ∷ g) sem sem' n j h = ground arith
