-- ===== src/Engine/Forward/Closing.antt =====
-- go/engine.go: which connections `CloseAllConnections` closes.
use mathlib.Core.Logic.{∥∥₁_elim}
use mathlib.Core.List.{Perm, Permᴰ}
use mathlib.Core.List.Perm
use native.Mathlib.Nat.{ℕ_set}
use teapod_tun2socks.Prelude.{
  ℕ, ◌+◌, ◌≡◌, refl, ap, ◌∙◌, List, ◌++◌, map, length, length-map, arith, suc,
}
use teapod_tun2socks.Engine.Forward.Table.{close_all_connections}

length-Permᴰ : {A : Type 0} (a b : List A) → Permᴰ a b → length a ≡ length b
length-Permᴰ _ _ Permᴰ.nil = refl
length-Permᴰ _ _ (Permᴰ.cons {l₁} {l₂} e p) = ap suc (length-Permᴰ l₁ l₂ p)
length-Permᴰ _ _ (Permᴰ.swap e f) = refl
length-Permᴰ _ _ (Permᴰ.trans {l₁} {l₂} {l₃} p q) = length-Permᴰ l₁ l₂ p ∙ length-Permᴰ l₂ l₃ q

pub length-Perm : {A : Type 0} (a b : List A) → Perm a b → length a ≡ length b
length-Perm a b p = ∥∥₁_elim p (ℕ_set (length a) (length b)) (length-Permᴰ a b)

-- If `range` visits each entry of a map once, in any order: the closed connections are those of the
-- two tables, each as often as it is tracked, and the result is their number.
pub close_all_connections-Perm :
    (range : List (ℕ × ℕ) → List (ℕ × ℕ)) (conns udp_conns : List (ℕ × ℕ))
    → ((m : List (ℕ × ℕ)) → Perm (range m) m)
    → Perm
        (close_all_connections range conns udp_conns).0
        (map (λ e. e.1) conns ++ map (λ e. e.1) udp_conns)
      × ((close_all_connections range conns udp_conns).1 ≡ length conns + length udp_conns)
unfolding close_all_connections
close_all_connections-Perm range conns udp_conns visits =
    let tcp_length = length-Perm (range conns) conns (visits conns) in
    let udp_length = length-Perm (range udp_conns) udp_conns (visits udp_conns) in
    (
      Perm.append (Perm.map (λ e. e.1) (visits conns)) (Perm.map (λ e. e.1) (visits udp_conns)),
      omega (
        arith,
        length-map {0, 0} (range conns) (λ e. e.1),
        length-map {0, 0} (range udp_conns) (λ e. e.1),
      ),
    )
