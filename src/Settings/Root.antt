-- ===== src/Settings/Root.antt =====
-- src/utils/utils.go, FindProjectRoot. Whether a directory has the file go.mod, and `filepath.Dir`, are parameters. The
-- loop is on fuel; `none` is that the fuel has run out.
use samanager_backend.Base.{
  ℕ, zero, suc, ◌<◌, ◌≡◌, refl, String, Bool, true, false, Option, none, some, str_eq, eq_iff,
  Bool-cases, inl, inr, ◌⊎◌, if◌then◌else◌, arith,
}

-- What the search ends with: a directory, or the panic at the root of the file system.
pub data Search : Type 0 where
  found : String → Search
  not_found : Search

module _ (has_go_mod : String → Bool) (parent : String → String) where
  unfoldable pub find_project_root : ℕ → String → Option Search
  find_project_root zero dir = none
  find_project_root (suc fuel) dir =
      let rest = find_project_root fuel (parent dir) in
      if has_go_mod dir
      then some (found dir)
      else if str_eq (parent dir) dir
      then some not_found
      else rest

  abbrev pub ancestor : ℕ → String → String
  ancestor zero dir = dir
  ancestor (suc k) dir = ancestor k (parent dir)

  -- A directory whose parent is itself has no other ancestors.
  top_ancestor : (k : ℕ) (dir : String) → parent dir ≡ dir → ancestor k dir ≡ dir
  top_ancestor zero dir top = refl
  top_ancestor (suc k) dir top = rw top (top_ancestor k dir top)

  -- The nearest directory with the file, or that no directory up to the root has it.
  abbrev pub IsNearest : String → Search → Type 0
  IsNearest dir (found root) =
      (k : ℕ) × (ancestor k dir ≡ root)
      × (has_go_mod root ≡ true)
      × ((j : ℕ) → j < k → has_go_mod (ancestor j dir) ≡ false)
  IsNearest dir not_found = (j : ℕ) → has_go_mod (ancestor j dir) ≡ false

  IsNearest-above :
      (dir : String) (search : Search)
      → has_go_mod dir ≡ false
      → IsNearest (parent dir) search
      → IsNearest dir search
  IsNearest-above dir (found root) here (k, at, has, below) = (suc k, at, has, λ j h. before j h)
    where
      before : (j : ℕ) → j < suc k → has_go_mod (ancestor j dir) ≡ false
      before zero h = here
      before (suc j) h = below j (omega arith)
  IsNearest-above dir not_found here all = λ j. upwards j
    where
      upwards : (j : ℕ) → has_go_mod (ancestor j dir) ≡ false
      upwards zero = here
      upwards (suc j) = all j

  -- Where a parent is shorter than its directory or the directory itself, as `filepath.Dir` has it, the search ends
  -- within one round more than the directory is long, with the nearest directory upwards that has the file, or with
  -- the panic if none has it.
  pub find_project_root-ends :
      (length : String → ℕ)
      → ((dir : String) → (parent dir ≡ dir) ⊎ (length (parent dir) < length dir))
      → (fuel : ℕ) (dir : String) → length dir < fuel
      → (search : Search) × (find_project_root fuel dir ≡ some search) × IsNearest dir search
  unfolding find_project_root
  find_project_root-ends length shorter zero dir enough = absurd (omega arith)
  find_project_root-ends length shorter (suc fuel) dir enough = elim (Bool-cases (has_go_mod dir)) [
    | inl has ↦
        (found dir, rw (has, find_project_root) refl, (0, refl, has, λ j h. absurd (omega arith)))
    | inr lacks ↦ elim (Bool-cases (str_eq (parent dir) dir)) [
      | inl top ↦ (
        not_found,
        rw (lacks, top, find_project_root) refl,
        λ j. rw (top_ancestor j dir ((eq_iff (parent dir) dir).0 top)) lacks,
      )
      | inr below ↦ elim (shorter dir) [
        | inl top ↦ cc ((eq_iff (parent dir) dir).1 top, below)
        | inr less ↦
            let (search, e, nearest) =
              find_project_root-ends length shorter fuel (parent dir) (omega arith) in
            (
              search,
              rw (lacks, below, find_project_root) e,
              IsNearest-above dir search lacks nearest,
            )
      ]
    ]
  ]
