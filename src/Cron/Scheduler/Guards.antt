-- ===== src/Cron/Scheduler/Guards.antt =====
-- cron/cron.go: the guards of the tasks, and the pointers that goroutines hold.
use xlgo_core.Base.{
  ℕ, zero, suc, ◌+◌, ◌≤◌, ◌≡◌, refl, ◌∙◌, ap, List, [], ◌∷◌, ◌++◌, Bool, true, false, some, ◌==◌,
  if◌then◌else◌, length, arith,
}
use xlgo_core.Cron.Scheduler.{Task, get, update, remove_one, mem}

-- How often a pointer stands in a list.
abbrev pub count : ℕ → List ℕ → ℕ
count p [] = 0
count p (q ∷ ps) = (if p == q then 1 else 0) + count p ps

-- 1 if the guard of the object is taken.
abbrev pub guarded : List Task → ℕ → ℕ
guarded [] p = 0
guarded (t ∷ h) zero = if t.running then 1 else 0
guarded (t ∷ h) (suc p) = guarded h p

pub guarded-le : (h : List Task) (p : ℕ) → guarded h p ≤ 1
guarded-le [] p = omega arith
guarded-le (t ∷ h) zero = ground arith
guarded-le (t ∷ h) (suc p) = guarded-le h p

-- A change that leaves the guard alone.
pub guarded-update_same :
    (f : Task → Task)
    → ((t : Task) → (f t).running ≡ t.running)
    → (h : List Task) (p q : ℕ) → guarded (update h p f) q ≡ guarded h q
guarded-update_same f same [] p q = refl
guarded-update_same f same (t ∷ h) zero zero = ap (λ b. if b then 1 else 0) (same t)
guarded-update_same f same (t ∷ h) zero (suc q) = refl
guarded-update_same f same (t ∷ h) (suc p) zero = refl
guarded-update_same f same (t ∷ h) (suc p) (suc q) = guarded-update_same f same h p q

-- A change that takes the guard, or frees it, where there is an object.
pub guarded-update_set :
    (f : Task → Task) (b : Bool)
    → ((t : Task) → (f t).running ≡ b)
    → (h : List Task) (p q : ℕ) {t : Task} → get h p ≡ some t
    → guarded (update h p f) q ≡ (if p == q then (if b then 1 else 0) else guarded h q)
guarded-update_set f b sets [] p q e = cc
guarded-update_set f b sets (t ∷ h) zero zero e = ap (λ c. if c then 1 else 0) (sets t)
guarded-update_set f b sets (t ∷ h) zero (suc q) e = ground arith
guarded-update_set f b sets (t ∷ h) (suc p) zero e = ground arith
guarded-update_set f b sets (t ∷ h) (suc p) (suc q) e =
    guarded-update_set f b sets h p q e ∙ ground arith

pub guarded_of_get :
    (h : List Task) (p : ℕ) (t : Task)
    → get h p ≡ some t
    → guarded h p ≡ (if t.running then 1 else 0)
guarded_of_get [] p t e = cc
guarded_of_get (u ∷ h) zero t e = ground arith
guarded_of_get (u ∷ h) (suc p) t e = guarded_of_get h p t e

pub get_of_guarded : (h : List Task) (p : ℕ) → guarded h p ≡ 1 → (t : Task) × (get h p ≡ some t)
get_of_guarded [] p e = absurd (omega arith)
get_of_guarded (t ∷ h) zero e = (t, refl)
get_of_guarded (t ∷ h) (suc p) e = get_of_guarded h p e

pub guarded-append :
    (h : List Task) (t : Task) (p : ℕ) → t.running ≡ false → guarded (h ++ t ∷ []) p ≡ guarded h p
guarded-append [] t zero e = rw e refl
guarded-append [] t (suc p) e = refl
guarded-append (u ∷ h) t zero e = refl
guarded-append (u ∷ h) t (suc p) e = guarded-append h t p e

pub count-remove_one :
    (p q : ℕ) (ps : List ℕ)
    → mem p ps ≡ true
    → count q ps ≡ (if p == q then 1 else 0) + count q (remove_one p ps)
count-remove_one p q [] e = cc
count-remove_one p q (r ∷ ps) e = ground (arith, count-remove_one p q ps)

pub length-remove_one :
    (p : ℕ) (ps : List ℕ) → mem p ps ≡ true → length ps ≡ suc (length (remove_one p ps))
length-remove_one p [] e = cc
length-remove_one p (q ∷ ps) e = ground (arith, length-remove_one p ps)

pub count_of_mem : (p : ℕ) (ps : List ℕ) → mem p ps ≡ true → 1 ≤ count p ps
count_of_mem p [] e = cc
count_of_mem p (q ∷ ps) e = ground (arith, count_of_mem p ps)
