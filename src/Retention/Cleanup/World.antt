-- ===== src/Retention/Cleanup/World.antt =====
-- A concrete environment for the cleanup run of server/internal/backup/retention/service.go: the
-- stored objects and the rows, with a deletion that removes what it is asked to or fails.
use backup_x.Base.{
  ℕ, ◌≡◌, refl, Bool, true, false, not, ◌&&◌, ◌||◌, List, [], ◌∷◌, some, ◌==◌, if◌then◌else◌,
  contains, arith,
}
use backup_x.Base.Text.{text_eq}
use backup_x.Retention.Cleanup.{Calls, CleanupObject}

pub record World : Type 0 where
  pub stored : List CleanupObject
  pub rows : List ℕ

abbrev pub same_object : CleanupObject → CleanupObject → Bool
same_object a b = (a.target_id == b.target_id) && text_eq a.path b.path

abbrev pub is_stored : List CleanupObject → CleanupObject → Bool
is_stored [] o = false
is_stored (s ∷ ss) o = same_object s o || is_stored ss o

unfoldable pub remove_object : CleanupObject → List CleanupObject → List CleanupObject
remove_object o [] = []
remove_object o (s ∷ ss) =
    let rest = remove_object o ss in if same_object s o then rest else s ∷ rest

unfoldable pub remove_row : ℕ → List ℕ → List ℕ
remove_row a [] = []
remove_row a (x ∷ xs) = let rest = remove_row a xs in if x == a then rest else x ∷ rest

-- Which providers are at hand, and which deletions fail.
pub record Faults : Type 0 where
  pub has_provider : ℕ → Bool
  pub object_fails : CleanupObject → Bool
  pub row_fails : ℕ → Bool

unfoldable pub calls_of : Faults → Calls World
calls_of f = record {
  resolve = f.has_provider;
  delete_object = λ w o.
      if f.object_fails o
      then (w, false)
      else (record w { stored = remove_object o w.stored }, true);
  delete_row =
      λ w a. if f.row_fails a then (w, false) else (record w { rows = remove_row a w.rows }, true);
  prune = λ w target. (w, some 0);
  cleans_dirs = λ target. true;
  remove_empty_dirs = λ w target prefix. (w, true);
}

pub remove_object_gone :
    (o : CleanupObject) (ss : List CleanupObject) → is_stored (remove_object o ss) o ≡ false
unfolding remove_object
remove_object_gone o [] = refl
remove_object_gone o (s ∷ ss) = ground (arith, remove_object_gone o ss)

pub remove_object_keeps_gone :
    (o x : CleanupObject) (ss : List CleanupObject)
    → is_stored ss x ≡ false
    → is_stored (remove_object o ss) x ≡ false
unfolding remove_object
remove_object_keeps_gone o x [] h = refl
remove_object_keeps_gone o x (s ∷ ss) h = ground (arith, remove_object_keeps_gone o x ss)

pub contains-remove_row :
    (a x : ℕ) (rows : List ℕ) → contains (remove_row a rows) x ≡ (contains rows x && not (a == x))
unfolding remove_row
contains-remove_row a x [] = refl
contains-remove_row a x (y ∷ rows) = ground (arith, contains-remove_row a x rows)
