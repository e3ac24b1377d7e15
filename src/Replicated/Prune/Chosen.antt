-- ===== src/Replicated/Prune/Chosen.antt =====
-- modules/replicated.c: the version that is chosen, and the hosts that are left.
use autofs.Prelude.{
  ℕ, ◌≤◌, true, false, List, [], ◌∷◌, ◌≡◌, ◌⊎◌, sym, arith, ◌==◌, ==_iff, if_both, All,
}
use autofs.Replicated.{Host}
use autofs.Replicated.Prune.{
  nfs4_tcp, nfs3_tcp, nfs2_tcp, nfs4_udp, nfs3_udp, nfs2_udp, count_version, max, max3,
  select_version,
}

abbrev pub all_versions : List ℕ
all_versions = nfs4_tcp ∷ nfs3_tcp ∷ nfs2_tcp ∷ nfs4_udp ∷ nfs3_udp ∷ nfs2_udp ∷ []

max_choice :
    (a b c d e f : ℕ)
    → let m = max (max3 a b c) (max3 d e f) in
      (a ≤ m) × (b ≤ m) × (c ≤ m) × (d ≤ m) × (e ≤ m) × (f ≤ m)
max_choice a b c d e f = ground arith

max_one :
    (a b c d e f : ℕ)
    → let m = max (max3 a b c) (max3 d e f) in
      (m ≡ a) ⊎ ((m ≡ b) ⊎ ((m ≡ c) ⊎ ((m ≡ d) ⊎ ((m ≡ e) ⊎ (m ≡ f)))))
max_one a b c d e f = ground arith

some_test :
    (m a b c d e f : ℕ)
    → (m ≡ a) ⊎ ((m ≡ b) ⊎ ((m ≡ c) ⊎ ((m ≡ d) ⊎ ((m ≡ e) ⊎ (m ≡ f)))))
    → (m == a) ≡ false
    → (m == b) ≡ false
    → (m == c) ≡ false
    → (m == d) ≡ false
    → (m == e) ≡ false
    → (m == f) ≡ false
    → ⊥
some_test m a b c d e f one ha hb hc hd he hf = ground arith

-- The chain of tests comes to a version with the greatest count.
count-select_version :
    (hosts : List Host)
    → let c = λ (v : ℕ). count_version v hosts in
      count_version (select_version hosts) hosts
      ≡ max
          (max3 (c nfs4_tcp) (c nfs3_tcp) (c nfs2_tcp))
          (max3 (c nfs4_udp) (c nfs3_udp) (c nfs2_udp))
unfolding select_version
count-select_version hosts =
    let c = λ (v : ℕ). count_version v hosts in
    let m =
      max (max3 (c nfs4_tcp) (c nfs3_tcp) (c nfs2_tcp))
        (max3 (c nfs4_udp) (c nfs3_udp) (c nfs2_udp)) in
    let P : ℕ → Type 0 = λ v. count_version v hosts ≡ m in
    let hit = λ (v : ℕ) (e : (m == c v) ≡ true). sym ((==_iff m (c v)).0 e) in
    if_both P (m == c nfs4_tcp) (hit nfs4_tcp) (λ h₁.
      if_both P (m == c nfs3_tcp) (hit nfs3_tcp) (λ h₂.
        if_both P (m == c nfs2_tcp) (hit nfs2_tcp) (λ h₃.
          if_both P (m == c nfs4_udp) (hit nfs4_udp) (λ h₄.
            if_both P (m == c nfs3_udp) (hit nfs3_udp) (λ h₅.
              if_both P (m == c nfs2_udp) (hit nfs2_udp) (λ h₆. absurd (
                some_test m _ _ _ _ _ _
                  (max_one (c nfs4_tcp) (c nfs3_tcp) (c nfs2_tcp) (c nfs4_udp) (c nfs3_udp)
                    (c nfs2_udp))
                  h₁ h₂ h₃ h₄ h₅ h₆)))))))

-- No version of NFS is served by more of the hosts than the one that is chosen.
pub select_version-max :
    (hosts : List Host)
    → All (λ v. count_version v hosts ≤ count_version (select_version hosts) hosts) all_versions
select_version-max hosts =
    let c = λ (v : ℕ). count_version v hosts in
    let (h₁, h₂, h₃, h₄, h₅, h₆) =
      max_choice (c nfs4_tcp) (c nfs3_tcp) (c nfs2_tcp) (c nfs4_udp) (c nfs3_udp) (c nfs2_udp) in
    rw (count-select_version hosts) (h₁, (h₂, (h₃, (h₄, (h₅, (h₆, tt))))))
