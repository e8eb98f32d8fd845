-- ===== src/Store/Db/Laws.antt =====
-- What a statement that succeeds has returned and written.
use mathlib.Core.List
use configfs.Prelude.{
  ◌∙◌, sym, ap, List, [], ◌∷◌, ◌++◌, Bool, true, Memᴰ, suc, ℤ, pos, ◌≡◌, refl, arith, Bool-cases,
  inl, inr,
}
use configfs.Exec.{ok}
use configfs.Store.Db.{Db, World, fails, later, statement, query, execute, next_inode}

-- The statements between two states of the list of faults: whether each of them failed.
abbrev pub Passed : List Bool → List Bool → Type 0
Passed before after = (used : List Bool) × (before ≡ used ++ after)

-- One of the statements between the two failed.
abbrev pub Struck : List Bool → List Bool → Type 0
Struck before after = (used : List Bool) × (before ≡ used ++ after) × Memᴰ true used

pub Passed-later : (fs : List Bool) → Passed fs (later fs)
Passed-later [] = ([], refl)
Passed-later (b ∷ bs) = (b ∷ [], refl)

append_assoc : (a b c : List Bool) → (a ++ b) ++ c ≡ a ++ (b ++ c)
append_assoc [] b c = refl
append_assoc (x ∷ a) b c = ap (λ l. x ∷ l) (append_assoc a b c)

pub Passed-trans : {a b c : List Bool} → Passed a b → Passed b c → Passed a c
Passed-trans {c} (u, p) (v, q) = (u ++ v, p ∙ ap (λ l. u ++ l) q ∙ sym (append_assoc u v c))

pub Struck-after : {a b c : List Bool} → Passed a b → Struck b c → Struck a c
Struck-after {c} (u, p) (v, q, m) =
    (u ++ v, p ∙ ap (λ l. u ++ l) q ∙ sym (append_assoc u v c), List.Memᴰ.append_right u m)

pub Struck-of_fails : (fs : List Bool) → fails fs ≡ true → Struck fs (later fs)
Struck-of_fails [] e = cc
Struck-of_fails (b ∷ bs) e = (b ∷ [], refl, Memᴰ.head (sym e))

module _ {A : Type 0} where
  pub statement_ok :
      (f : Db → A × Db) (w : World) (a : A)
      → (statement f w).0 ≡ ok a
      → ((f w.db).0 ≡ a) × ((statement f w).1.db ≡ (f w.db).1)
  unfolding statement
  statement_ok f w a h = elim (Bool-cases (fails w.faults)) [
    | inl failed ↦ cc (rw failed at h)
    | inr ran ↦ rw ran (ground arith, refl)
  ]

  -- A SELECT returns its rows and writes nothing.
  pub query_ok :
      (f : Db → A) (w : World) (a : A)
      → (query f w).0 ≡ ok a
      → (f w.db ≡ a) × ((query f w).1.db ≡ w.db)
  unfolding query
  query_ok f w a h = statement_ok (λ db. (f db, db)) w a h

  pub query_keeps : (f : Db → A) (w : World) → (query f w).1.db ≡ w.db
  unfolding query statement
  query_keeps f w = ground arith

  pub query-now : (f : Db → A) (w : World) → (query f w).1.now ≡ w.now
  unfolding query statement
  query-now f w = ground arith

pub statement_passes :
    {A : Type 0} (f : Db → A × Db) (w : World) → Passed w.faults (statement f w).1.faults
unfolding statement
statement_passes f w = elim (Bool-cases (fails w.faults)) [
  | inl failed ↦ rw failed (Passed-later w.faults)
  | inr ran ↦ rw ran (Passed-later w.faults)
]

-- A write that succeeds has been made.
pub execute_ok : (f : Db → Db) (w : World) → (execute f w).0 ≡ ok tt → (execute f w).1.db ≡ f w.db
unfolding execute
execute_ok f w h = (statement_ok (λ db. (tt, f db)) w tt h).1

-- A new inode is the successor of the largest one, and only the counter has moved.
pub next_inode_ok :
    (w : World) (n : ℤ)
    → (next_inode w).0 ≡ ok n
    → (pos (suc w.db.inode) ≡ n) × ((next_inode w).1.db ≡ record w.db { inode = suc w.db.inode })
unfolding next_inode
next_inode_ok w n h =
    statement_ok (λ db. (pos (suc db.inode), record db { inode = suc db.inode })) w n h
