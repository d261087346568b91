-- ===== src/Cache/Hits.antt =====
-- The states after `readBlock` and `write` have found their block: the lists that they stand for.
use pfs.Base.{ℕ, ◌≡◌, refl, sym, ◌∙◌, inl, inr, true, false, ◌∷◌, arith, if◌then◌else◌, Bool-cases}
use pfs.Cache.Order.{contains, without, contains-without}
use pfs.Cache.Links.{assign, add_to, remove_from}
use pfs.Cache.Links.Refines.{add_to-IsList, remove_from-IsList}
use pfs.Cache.Invariant.{Shape, cached, IsCache}
use pfs.Cache.Changes.{relink-IsCache}
use pfs.Cache.Methods.{touch, contains-touch, touch-IsList, KeepsFree}
use pfs.Cache.{
  Cache, written, change_block, add_to_recency_list, remove_from_recency_list, add_to_dirty_list,
  remove_from_dirty_list,
}

module _ (std_hash : ℕ → ℕ) {g : Shape} {c : Cache} (i : IsCache std_hash g c) (node : ℕ) where
  -- On which list a cached node is.
  listed :
      cached g node ≡ true
      → contains node (if (c.blocks node).clean then g.recent else g.dirty) ≡ true
  listed m = ground (arith, i.clean node, i.unclean node)

  read_clean-IsCache :
      contains node g.recent ≡ true
      → IsCache std_hash
          (record g { recent = touch node g.recent })
          (add_to_recency_list node (remove_from_recency_list node c))
  unfolding add_to_recency_list remove_from_recency_list
  read_clean-IsCache m =
      let same = λ (a : ℕ). contains-touch node g.recent a m in
      relink-IsCache std_hash i (touch node g.recent) g.dirty
        (add_to node (remove_from node c.recency)) c.dirty_list c.blocks
        (touch-IsList node g.recent c.recency i.recency) i.dirty (λ a. ground (arith, same a))
        (λ a h. i.clean a (sym (same a) ∙ h)) i.unclean
        (λ a k h. i.untouched a k (sym (same a) ∙ h)) (λ a. (refl, refl, refl))

  read_dirty-IsCache :
      contains node g.dirty ≡ true
      → IsCache std_hash
          (record g { dirty = touch node g.dirty })
          (add_to_dirty_list node (remove_from_dirty_list node c))
  unfolding add_to_dirty_list remove_from_dirty_list
  read_dirty-IsCache m =
      let same = λ (a : ℕ). contains-touch node g.dirty a m in
      relink-IsCache std_hash i g.recent (touch node g.dirty) c.recency
        (add_to node (remove_from node c.dirty_list)) c.blocks i.recency
        (touch-IsList node g.dirty c.dirty_list i.dirty) (λ a. ground (arith, same a)) i.clean
        (λ a h. i.unclean a (sym (same a) ∙ h)) i.untouched (λ a. (refl, refl, refl))

  -- A write moves a clean node to the dirty list, and a dirty one to its front.
  module _ (offset size : ℕ) (source : ℕ → ℕ) where
    write_clean-IsCache :
        contains node g.recent ≡ true
        → IsCache std_hash
            (record g { recent = without node g.recent; dirty = node ∷ g.dirty })
            (add_to_dirty_list node
              (change_block node (written offset size source) (remove_from_recency_list node c)))
    unfolding add_to_dirty_list remove_from_recency_list
    write_clean-IsCache m =
        let out : contains node g.dirty ≡ false = ground (arith, i.clean node, i.unclean node) in
        let rest = λ (a : ℕ). contains-without g.recent node a in
        relink-IsCache std_hash i (without node g.recent) (node ∷ g.dirty)
          (remove_from node c.recency) (add_to node c.dirty_list)
          (assign node (written offset size source (c.blocks node)) c.blocks)
          (remove_from-IsList node g.recent c.recency i.recency)
          (add_to-IsList node g.dirty c.dirty_list out i.dirty) (λ a. ground (arith, rest a))
          (λ a h. ground (arith, rest a, i.clean a)) (λ a h. ground (arith, i.unclean a))
          (λ a k h. ground (arith, rest a, i.untouched a k)) (λ a. ground arith)

    write_dirty-IsCache :
        contains node g.dirty ≡ true
        → IsCache std_hash
            (record g { dirty = touch node g.dirty })
            (add_to_dirty_list node
              (change_block node (written offset size source) (remove_from_dirty_list node c)))
    unfolding add_to_dirty_list remove_from_dirty_list
    write_dirty-IsCache m =
        let same = λ (a : ℕ). contains-touch node g.dirty a m in
        let out : contains node g.recent ≡ false = ground (arith, i.clean node, i.unclean node) in
        relink-IsCache std_hash i g.recent (touch node g.dirty) c.recency
          (add_to node (remove_from node c.dirty_list))
          (assign node (written offset size source (c.blocks node)) c.blocks) i.recency
          (touch-IsList node g.dirty c.dirty_list i.dirty) (λ a. ground (arith, same a))
          (λ a h. ground (arith, i.clean a)) (λ a h. ground (arith, same a, i.unclean a))
          (λ a k h. ground (arith, i.untouched a k)) (λ a. ground arith)

  -- The cache after a hit, with the lists that it stands for then.
  pub read_hit :
      (m : cached g node ≡ true)
      → let c' =
          if (c.blocks node).clean
          then add_to_recency_list node (remove_from_recency_list node c)
          else add_to_dirty_list node (remove_from_dirty_list node c) in
        (g' : Shape) × IsCache std_hash g' c'
        × ((a : ℕ) → cached g' a ≡ cached g a)
        × (c'.blocks ≡ c.blocks)
        × KeepsFree g c g' c'
  unfolding add_to_recency_list add_to_dirty_list remove_from_recency_list remove_from_dirty_list
  read_hit m =
      let on = listed m in
      elim (Bool-cases ((c.blocks node).clean)) [
        | inl e ↦
            let r : contains node g.recent ≡ true = ground arith in
            rw e (
              record g { recent = touch node g.recent },
              read_clean-IsCache r,
              λ a. ground (arith, contains-touch node g.recent a r),
              refl,
              (refl, omega arith),
            )
        | inr e ↦
            let r : contains node g.dirty ≡ true = ground arith in
            rw e (
              record g { dirty = touch node g.dirty },
              read_dirty-IsCache r,
              λ a. ground (arith, contains-touch node g.dirty a r),
              refl,
              (refl, omega arith),
            )
      ]

  pub write_hit :
      (offset size : ℕ) (source : ℕ → ℕ) (m : cached g node ≡ true)
      → let c' = add_to_dirty_list node (
          change_block node (written offset size source) (
            if (c.blocks node).clean
            then remove_from_recency_list node c
            else remove_from_dirty_list node c)) in
        (g' : Shape) × IsCache std_hash g' c'
        × ((a : ℕ) → cached g' a ≡ cached g a)
        × (c'.blocks ≡ assign node (written offset size source (c.blocks node)) c.blocks)
        × KeepsFree g c g' c'
  unfolding add_to_recency_list add_to_dirty_list remove_from_recency_list remove_from_dirty_list
  write_hit offset size source m =
      let on = listed m in
      elim (Bool-cases ((c.blocks node).clean)) [
        | inl e ↦
            let r : contains node g.recent ≡ true = ground arith in
            rw e (
              record g { recent = without node g.recent; dirty = node ∷ g.dirty },
              write_clean-IsCache offset size source r,
              λ a. ground (arith, contains-without g.recent node a),
              refl,
              (refl, omega arith),
            )
        | inr e ↦
            let r : contains node g.dirty ≡ true = ground arith in
            rw e (
              record g { dirty = touch node g.dirty },
              write_dirty-IsCache offset size source r,
              λ a. ground (arith, contains-touch node g.dirty a r),
              refl,
              (refl, omega arith),
            )
      ]
