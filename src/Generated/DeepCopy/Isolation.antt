-- ===== src/Generated/DeepCopy/Isolation.antt =====
-- A deep copy and its original do not share a cell.
use cloudtty.Base.{ℕ, ◌≤◌, ◌<◌, ◌≡◌, List, [], ◌∷◌, Option, some, arith, nat_eq, if◌then◌else◌}
use cloudtty.Generated.DeepCopy.Heap.{Cell, Heap, M, shells}
use cloudtty.Generated.DeepCopy.Copied.{Reading, IsSound, KeepsFrom, KeepsBelow, IsDeepCopy}
use cloudtty.Generated.DeepCopy.Rules.{read_pointer, pointer-IsDeepCopy}
use cloudtty.Generated.DeepCopy.Views.{Views, Shell, read_shell}
use cloudtty.Generated.DeepCopy.Structs.{IsLawful, shell-IsDeepCopy}
use cloudtty.Generated.DeepCopy.{Library, deep_copy_shell}

module _ {F : Type 0} where
  -- Assignments through addresses, the first one first.
  unfoldable pub write_all : List (ℕ × Cell F) → Heap F → Heap F
  write_all [] h = h
  write_all ((p, c) ∷ writes) h =
      write_all writes (record h { cell = λ q. if nat_eq p q then some c else h.cell q })

  -- They are to addresses below `n`, or to none of these.
  abbrev pub AreBelow : ℕ → List (ℕ × Cell F) → Type 0
  AreBelow n [] = Unit {0}
  AreBelow n ((p, _) ∷ writes) = (p < n) × AreBelow n writes

  abbrev pub AreFrom : ℕ → List (ℕ × Cell F) → Type 0
  AreFrom n [] = Unit {0}
  AreFrom n ((p, _) ∷ writes) = (n ≤ p) × AreFrom n writes

  write_all-KeepsFrom :
      (writes : List (ℕ × Cell F)) (n : ℕ) (h : Heap F)
      → AreBelow n writes
      → KeepsFrom n h (write_all writes h)
  unfolding write_all
  write_all-KeepsFrom [] n h _ p c le e = e
  write_all-KeepsFrom ((q, d) ∷ writes) n h (lt, below) p c le e =
      write_all-KeepsFrom writes n _ below p c le (ground arith)

  write_all-KeepsBelow :
      (writes : List (ℕ × Cell F)) (n : ℕ) (h : Heap F)
      → AreFrom n writes
      → KeepsBelow n h (write_all writes h)
  unfolding write_all
  write_all-KeepsBelow [] n h _ p c lt e = e
  write_all-KeepsBelow ((q, d) ∷ writes) n h (le, from) p c lt e =
      write_all-KeepsBelow writes n _ from p c lt (ground arith)

module _ {F A V : Type 0} {view : A → Reading F V} {copy : A → M F A} where
  deep_copy_isolated :
      IsDeepCopy view copy
      → (a : A) (h : Heap F) (v : V) (theirs ours : List (ℕ × Cell F)) → IsSound h
      → view a h ≡ some v
      → AreBelow h.next theirs
      → AreFrom h.next ours
      → (b : A) × (g : Heap F) × (copy a h ≡ some (b, g))
        × (view b (write_all theirs g) ≡ some v)
        × (view a (write_all ours g) ≡ some v)
  deep_copy_isolated d a h v theirs ours sound e below from =
      let made = d.made a h v sound e in
      (
        made.result,
        made.heap,
        made.returned,
        made.holds _ (write_all-KeepsFrom theirs h.next made.heap below),
        (d.reads a).stays h _ v
            (λ p c there.
              write_all-KeepsBelow ours h.next made.heap from p c (sound p c there)
                (made.extends p c there))
            e,
      )

-- `DeepCopy` of a shell returns a pointer where the same contents are read. They are still read there
-- whatever is then written to cells that were there before, the original's among them, and the
-- original's are still read whatever is written to the cells that the copy allocated, or to later ones:
-- on any sound heap where the shell can be read, when the deep copies of other packages are such.
pub deep_copy_shell_isolated :
    {F X Y : Type 0} (L : Library F) (W : Views F X Y) (p : Option ℕ) (h : Heap F)
    (v : Option (Shell X)) (theirs ours : List (ℕ × Cell F))
    → IsLawful L W
    → IsSound h
    → read_pointer shells (read_shell W) p h ≡ some v
    → AreBelow h.next theirs
    → AreFrom h.next ours
    → (q : Option ℕ) × (g : Heap F) × (deep_copy_shell L p h ≡ some (q, g))
      × (read_pointer shells (read_shell W) q (write_all theirs g) ≡ some v)
      × (read_pointer shells (read_shell W) p (write_all ours g) ≡ some v)
unfolding deep_copy_shell
deep_copy_shell_isolated L W p h v theirs ours lawful sound e below from =
    deep_copy_isolated (pointer-IsDeepCopy (shell-IsDeepCopy lawful) shells) p h v theirs ours sound
      e below from
