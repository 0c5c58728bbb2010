-- ===== src/Initrd/Directory/Find.antt =====
-- `initrd_finddir` and the names of the nodes.
use panda_os.Base.{
  ℕ, zero, suc, ◌+◌, ◌<◌, ◌≡◌, ◌≢◌, refl, sym, ◌∙◌, ap, ◌⊎◌, List, length, false, ◌==◌, ok, arith,
  Bool-cases, inl, inr,
}
use panda_os.Base.Memory.{Memory}
use panda_os.Strings.Holds.{Holds}
use panda_os.Strings.Compare.{strcmp-eq}
use panda_os.Initrd.Directory.{Disk, node_at, find_node, initrd_finddir}

-- Node i of the first n has the i-th name.
abbrev pub Named : (root_nodes n : ℕ) (names : ℕ → List ℕ) → Memory → Type 0
Named root_nodes n names m = (i : ℕ) → i < n → Holds (node_at root_nodes i) (names i) m

-- The first node of that name, or 0 if there is none.
abbrev pub IsFirst : (root_nodes n : ℕ) (names : ℕ → List ℕ) → List ℕ → ℕ → Type 0
IsFirst root_nodes n names cs r =
    ((i : ℕ) × (i < n)
      × (names i ≡ cs)
      × ((j : ℕ) → j < i → names j ≢ cs)
      × (r ≡ node_at root_nodes i))
    ⊎ (((j : ℕ) → j < n → names j ≢ cs) × (r ≡ 0))

module _ (fuel : ℕ) (d : Disk) (names : ℕ → List ℕ) (name : ℕ) (cs : List ℕ) (m : Memory)
    (named : Named d.root_nodes d.nroot_nodes names m) (held : Holds name cs m)
    (enough : length cs < fuel) where
  find_node-IsFirst :
      (left i : ℕ)
      → i + left ≡ d.nroot_nodes
      → ((j : ℕ) → j < i → names j ≢ cs)
      → (r : ℕ) × (find_node fuel d left i name m ≡ ok r)
        × IsFirst d.root_nodes d.nroot_nodes names cs r
  unfolding find_node
  find_node-IsFirst zero i sum earlier = (0, refl, inr ((λ j lt. earlier j (omega arith)), refl))
  find_node-IsFirst (suc left) i sum earlier =
      let (r, ran, iff) =
        strcmp-eq fuel name (node_at d.root_nodes i) cs (names i) m held (named i (omega arith))
          enough in
      elim (Bool-cases (r == 0)) [
        | inl same ↦ (
          node_at d.root_nodes i,
          rw (ran, same),
          inl (i, omega arith, sym (iff.0 (ground arith)), earlier, refl),
        )
        | inr other ↦
            let (r', rest, first) = find_node-IsFirst left (i + 1) (omega arith) (λ j lt.
              elim (Bool-cases (j == i)) [
                | inl here ↦
                    let e : j ≡ i = ground arith in
                    λ z. absurd (ground (arith, iff.1 (sym (sym (ap names e) ∙ z))))
                | inr before ↦ earlier j (ground arith)
              ]) in
            (r', rw (ran, other) rest, first)
      ]

  -- With the names of the nodes in memory `initrd_finddir` returns, for a name other than "dev" or a
  -- directory other than the root, the first node of that name, or 0 if there is none.
  pub initrd_finddir-IsFirst :
      (node : ℕ) (dev : List ℕ)
      → Holds d.text_dev dev m
      → (node ≢ d.initrd_root) ⊎ (cs ≢ dev)
      → (r : ℕ) × (initrd_finddir fuel d node name m ≡ ok r)
        × IsFirst d.root_nodes d.nroot_nodes names cs r
  unfolding initrd_finddir
  initrd_finddir-IsFirst node dev text other =
      let (r, ran, first) =
        find_node-IsFirst d.nroot_nodes 0 (omega arith) (λ j lt. absurd (omega arith)) in
      elim (Bool-cases (node == d.initrd_root)) [
        | inr elsewhere ↦ (r, rw elsewhere ran, first)
        | inl root ↦
            let (q, compared, iff) = strcmp-eq fuel name d.text_dev cs dev m held text enough in
            let ne : (q == 0) ≡ false = elim other [
              | inl off ↦ absurd (off (ground arith))
              | inr apart ↦ elim (Bool-cases (q == 0)) [
                | inl t ↦ absurd (apart (iff.0 (ground arith)))
                | inr f ↦ f
              ]
            ] in
            (r, rw (root, compared, ne) ran, first)
      ]
