-- ===== src/Spider/Rules.antt =====
-- An invariant of the rounds of the scan holds at its end.
use geo_optimizer.Base.{
  Bool-cases, List, Option, [], arith, codes_eq, contains, false, inl, inr, ltb, nat_eq, refl, suc,
  true, zero, ℕ, ◌||◌, ◌∷◌, ◌≡◌, ◌≤◌, ◌⊎◌,
}
use geo_optimizer.Text.{Text}
use geo_optimizer.Spider.{Scan, visit, scan_loop}

module _ {ℓ} (pages : Text → Option (List Text)) (max_depth : ℕ) (P : ℕ → Scan → Type ℓ) where
  pub scan_loop_rule :
      ((room : ℕ) (s : Scan) (x : Text × ℕ) (rest : List (Text × ℕ))
        → s.queue ≡ x ∷ rest
        → P (suc room) s
        → (contains x.0 s.visited || ltb max_depth x.1) ≡ true
        → P (suc room) (record s { queue = rest }))
      → ((room : ℕ) (s : Scan) (x : Text × ℕ) (rest : List (Text × ℕ))
          → s.queue ≡ x ∷ rest
          → P (suc room) s
          → contains x.0 s.visited ≡ false
          → x.1 ≤ max_depth
          → P room (visit pages max_depth x.0 x.1 (record s { queue = rest })))
      → (room : ℕ) (queue : List (Text × ℕ)) (s : Scan) → s.queue ≡ queue
      → P room s
      → (left : ℕ) × P left (scan_loop pages max_depth room queue s)
        × ((left ≡ 0) ⊎ ((scan_loop pages max_depth room queue s).queue ≡ []))
  unfolding scan_loop
  scan_loop_rule skip step zero queue s e p = (0, p, inl refl)
  scan_loop_rule skip step (suc room) [] s e p = (suc room, p, inr e)
  scan_loop_rule skip step (suc room) ((url, depth) ∷ rest) s e p =
      elim (Bool-cases (contains url s.visited || ltb max_depth depth)) [
        | inl y ↦
            rw (y, scan_loop)
              (scan_loop_rule skip step (suc room) rest (record s { queue = rest }) refl
                (skip room s (url, depth) rest e p y))
        | inr n ↦
            let s' = visit pages max_depth url depth (record s { queue = rest }) in
            rw (n, scan_loop)
              (scan_loop_rule skip step room s'.queue s' refl
                (step room s (url, depth) rest e p (ground arith) (ground arith)))
      ]
