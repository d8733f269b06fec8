-- ===== src/Engine/Forward/Table.antt =====
-- go/engine.go: the tables `conns` and `udpConns`, and `CloseAllConnections`. A Go map from numbers
-- to connections is a list of pairs.
use teapod_tun2socks.Prelude.{ℕ, ◌+◌, ◌==◌, List, [], ◌∷◌, ◌++◌, map, length, if◌then◌else◌}

-- `untrackConn`, `untrackUDPConn`: `delete(m, id)`
unfoldable pub untrack : ℕ → List (ℕ × ℕ) → List (ℕ × ℕ)
untrack id [] = []
untrack id ((k, c) ∷ rest) = let kept = untrack id rest in if k == id then kept else ((k, c) ∷ kept)

-- `trackConn`, `trackUDPConn`: `m[id] = c`
unfoldable pub track : ℕ → ℕ → List (ℕ × ℕ) → List (ℕ × ℕ)
unfolding untrack
track id c conns = (id, c) ∷ untrack id conns

-- `CloseAllConnections`: the connections that it closes, in the order in which `range` visits the
-- two maps, and the number that it returns. Go leaves that order open.
unfoldable pub close_all_connections :
    (List (ℕ × ℕ) → List (ℕ × ℕ)) → List (ℕ × ℕ) → List (ℕ × ℕ) → List ℕ × ℕ
close_all_connections range conns udp_conns =
    let tcp_snap = map (λ e. e.1) (range conns) in
    let udp_snap = map (λ e. e.1) (range udp_conns) in
    (tcp_snap ++ udp_snap, length tcp_snap + length udp_snap)
