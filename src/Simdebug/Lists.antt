-- ===== src/Simdebug/Lists.antt =====
-- What debug-gui.c uses of GLib's lists. A link is a position here: `g_list_first` is position 0 and
-- `g_list_next` the next one.
use ajardsp.Common.{ℕ, zero, suc, ◌≡◌, List, [], ◌∷◌, ◌++◌}

-- The list without the element at a position.
unfoldable pub without : List ℕ → ℕ → List ℕ
without [] i = []
without (x ∷ xs) zero = xs
without (x ∷ xs) (suc i) = x ∷ without xs i

pub record ListLibrary : Type 0 where
  pub g_list_append : List ℕ → ℕ → List ℕ
  pub g_list_delete_link : List ℕ → ℕ → List ℕ
  pub appends : (l : List ℕ) (x : ℕ) → g_list_append l x ≡ l ++ x ∷ []
  pub deletes : (l : List ℕ) (i : ℕ) → g_list_delete_link l i ≡ without l i
