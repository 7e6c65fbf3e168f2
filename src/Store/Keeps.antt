-- ===== src/Store/Keeps.antt =====
-- A property of the tables goes through the actions on a session: what each of them may leave in the
-- database and in the session.
use gaking.Base.{Bool, true, false, List, [], ◌∷◌, inl, inr, arith}
use gaking.Store.Session.{
  Session, Tables, Result-cases, Action, ◌>>=◌, ◌>>◌, pure, modify, commit, commit_with,
  commit_bare, commit_bare_with,
}

-- Of what the database holds, and of what the session sees.
abbrev pub Both : (Tables → Type 0) → Session → Type 0
Both P s = P s.committed × P s.working

module _ (P : Tables → Type 0) where
  abbrev pub Keeps : {A : Type 0} → Action A → Type 0
  Keeps m = (s : Session) → Both P s → Both P (m s).1

  pub then-Both :
      {A B : Type 0} (m : Action A) (k : A → Action B) (s : Session)
      → Both P (m s).1
      → ((a : A) → Keeps (k a))
      → Both P ((m >>= k) s).1
  then-Both m k s f g = elim (Result-cases (m s).0) [
    | inl (a, done) ↦ ground (arith, done, g a (m s).1 f)
    | inr (e, raised) ↦ ground (arith, raised, f)
  ]

  pub then-Keeps :
      {A B : Type 0} (m : Action A) (k : A → Action B)
      → Keeps m
      → ((a : A) → Keeps (k a))
      → Keeps (m >>= k)
  then-Keeps m k f g s h = then-Both m k s (f s h) g

  commit_with-Keeps : (l : List Bool) (s : Session) → Both P s → Both P (commit_with l s).1
  unfolding commit_with
  commit_with-Keeps [] s h = (h.1, h.1)
  commit_with-Keeps (true ∷ rest) s h = (h.1, h.1)
  commit_with-Keeps (false ∷ rest) s h = (h.0, h.0)

  pub commit-Keeps : Keeps commit
  unfolding commit
  commit-Keeps s h = commit_with-Keeps s.faults s h

  commit_bare_with-Keeps :
      (l : List Bool) (s : Session) → Both P s → Both P (commit_bare_with l s).1
  unfolding commit_bare_with
  commit_bare_with-Keeps [] s h = (h.1, h.1)
  commit_bare_with-Keeps (true ∷ rest) s h = (h.1, h.1)
  commit_bare_with-Keeps (false ∷ rest) s h = (h.0, h.0)

  pub commit_bare-Keeps : Keeps commit_bare
  unfolding commit_bare
  commit_bare-Keeps s h = commit_bare_with-Keeps s.faults s h

  -- a change of the tables that is committed, and a result
  pub save-Keeps :
      {A : Type 0} (f : Tables → Tables) (a : A) (s : Session)
      → P s.committed
      → P (f s.working)
      → Both P ((modify f >> commit >> pure a) s).1
  save-Keeps f a s c w =
      let s' = record s { working = f s.working } in
      elim (Result-cases (commit s').0) [
        | inl (_, done) ↦ ground (arith, done, commit-Keeps s' (c, w))
        | inr (e, raised) ↦ ground (arith, raised, commit-Keeps s' (c, w))
      ]
