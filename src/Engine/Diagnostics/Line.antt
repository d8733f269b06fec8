-- ===== src/Engine/Diagnostics/Line.antt =====
-- The line of `StatsLine`, read back word by word.
use mathlib.Core.List.{append_assoc}
use teapod_tun2socks.Prelude.{
  ℕ, ◌≡◌, refl, ap, ◌∙◌, ℤ, pos, List, [], ◌∷◌, ◌++◌, Bool, true, false, not, ◌&&◌, ◌==◌,
  if◌then◌else◌, arith,
}
use teapod_tun2socks.Key.{codes}
use teapod_tun2socks.Engine.Instance.{Instance}
use teapod_tun2socks.Engine.Diagnostics.{StackStats, stats_line}

-- The words of a text: what stands between its blanks.
abbrev extend : ℕ → List (List ℕ) → List (List ℕ)
extend c [] = (c ∷ []) ∷ []
extend c (word ∷ more) = (c ∷ word) ∷ more

unfoldable pub words : List ℕ → List (List ℕ)
words [] = [] ∷ []
words (c ∷ text) = let more = words text in if c == 32 then [] ∷ more else extend c more

abbrev pub no_blank : List ℕ → Bool
no_blank [] = true
no_blank (c ∷ text) = not (c == 32) && no_blank text

words_last : (word : List ℕ) → no_blank word ≡ true → words word ≡ word ∷ []
unfolding words
words_last [] h = refl
words_last (c ∷ word) h =
    let other : (c == 32) ≡ false = ground arith in
    let rest : no_blank word ≡ true = ground arith in rw (other, words_last word rest) refl

words_first :
    (word text : List ℕ) → no_blank word ≡ true → words (word ++ (32 ∷ text)) ≡ word ∷ words text
unfolding words
words_first [] text h = refl
words_first (c ∷ word) text h =
    let other : (c == 32) ≡ false = ground arith in
    let rest : no_blank word ≡ true = ground arith in rw (other, words_first word text rest) refl

-- A line of words.
abbrev line_of : List ℕ → List (List ℕ) → List ℕ
line_of word [] = word
line_of word (next ∷ more) = word ++ (32 ∷ line_of next more)

abbrev AllWords : List (List ℕ) → Type 0
AllWords [] = Unit
AllWords (word ∷ more) = (no_blank word ≡ true) × AllWords more

words-line_of :
    (word : List ℕ) (more : List (List ℕ))
    → no_blank word ≡ true
    → AllWords more
    → words (line_of word more) ≡ word ∷ more
words-line_of word [] h all = words_last word h
words-line_of word (next ∷ more) h all =
    words_first word (line_of next more) h ∙ ap (word ∷◌) (words-line_of next more all.0 all.1)

no_blank-append : (a b : List ℕ) → no_blank a ≡ true → no_blank b ≡ true → no_blank (a ++ b) ≡ true
no_blank-append [] b ha hb = hb
no_blank-append (c ∷ a) b ha hb =
    let first : not (c == 32) ≡ true = ground arith in
    let rest : no_blank a ≡ true = ground arith in rw (first) (no_blank-append a b rest hb)

module _ {V : Type 0} (decimal : ℤ → List ℕ) (megabytes : ℕ → List ℕ) (stats : StackStats)
    (cache_entries : ℕ) (x : Instance V) where
  -- The packets that wait for the device, and the room for them.
  abbrev queue : List ℕ
  queue = decimal (pos stats.num_queued) ++ (codes "/" ++ decimal (pos 4096))

  abbrev later_words : List (List ℕ)
  later_words =
      (codes "udpConns=" ++ decimal x.server.active_udp_conns)
      ∷ (codes "gvisorEstab=" ++ decimal (pos stats.current_established))
      ∷ (codes "gvisorConn=" ++ decimal (pos stats.current_connected))
      ∷ (codes "chanQueued=" ++ queue)
      ∷ (codes "txMB=" ++ megabytes x.tx_bytes)
      ∷ (codes "rxMB=" ++ megabytes x.rx_bytes)
      ∷ (codes "cacheEntries=" ++ decimal (pos cache_entries))
      ∷ (codes "dialFails=" ++ decimal (pos x.server.socks_dial_fails))
      ∷ (codes "quicRej=" ++ decimal (pos x.quic_rejects))
      ∷ (codes "zombies=" ++ decimal (pos x.zombie_kills))
      ∷ []

  -- What the line shows: a name and a value in each word.
  abbrev pub stats_words : List (List ℕ)
  stats_words = (codes "tcpConns=" ++ decimal x.server.active_conns) ∷ later_words

  stats_line-line_of :
      stats_line decimal megabytes stats cache_entries x
      ≡ line_of (codes "tcpConns=" ++ decimal x.server.active_conns) later_words
  unfolding stats_line
  stats_line-line_of =
      rw (append_assoc (decimal (pos stats.num_queued)) (codes "/" ++ decimal (pos 4096)) _) refl

  pub words-stats_line :
      ((z : ℤ) → no_blank (decimal z) ≡ true)
      → ((n : ℕ) → no_blank (megabytes n) ≡ true)
      → words (stats_line decimal megabytes stats cache_entries x) ≡ stats_words
  words-stats_line hd hm =
      let waiting : no_blank queue ≡ true =
        no_blank-append (decimal (pos stats.num_queued)) (codes "/" ++ decimal (pos 4096))
          (hd (pos stats.num_queued)) (hd (pos 4096)) in
      ap words stats_line-line_of
      ∙ words-line_of (codes "tcpConns=" ++ decimal x.server.active_conns) later_words (hd _)
          (hd _, (hd _, (hd _, (waiting, (hm _, (hm _, (hd _, (hd _, (hd _, (hd _, tt))))))))))
