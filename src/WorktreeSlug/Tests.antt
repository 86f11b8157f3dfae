-- ===== src/WorktreeSlug/Tests.antt =====
-- Slugs with a digest that is always the same.
use locorum.Common.{ℕ, ◌≤◌, ◌≡◌, refl, none, some, List, length, arith}
use locorum.Common.Text.{codes}
use locorum.WorktreeSlug.{
  dns_label_max, worktree_slug, worktree_domain, branch_required, dot_dot, validate_worktree_opts,
}
use locorum.WorktreeSlug.Label.{IsLabel}
use locorum.WorktreeSlug.Slug.{IsHexDigest, worktree_slug-IsLabel}

abbrev fixed : List ℕ → List ℕ
fixed s = codes "0a1b2c3d"

fixed-IsHexDigest : IsHexDigest fixed
fixed-IsHexDigest = record {
  hex = λ s. (refl, (refl, (refl, (refl, (refl, (refl, (refl, (refl, tt))))))));
  long = λ s. omega arith;
}

plain :
    worktree_slug fixed (codes "shop") (codes "Feature/JIRA-12 x") (codes "/w")
    ≡ codes "shop-feature-jira-12-x-0a1b2c"
unfolding worktree_slug
plain = refl

truncated :
    worktree_slug fixed (codes "shop") (codes "aaaaaaaaaaaaaaaaa/bbb") (codes "/w")
    ≡ codes "shop-aaaaaaaaaaaaaaaaa-0a1b2c"
unfolding worktree_slug
truncated = refl

nothing_left :
    worktree_domain fixed (codes "shop") (codes "///") (codes "/w")
    ≡ codes "shop-branch-0a1b2c.localhost"
unfolding worktree_domain
nothing_left = refl

opts :
    (validate_worktree_opts (codes "git@x") (codes " ") (codes "/w") ≡ some branch_required)
    × (validate_worktree_opts (codes "git@x") (codes "main") (codes "/w/../y") ≡ some dot_dot)
    × (validate_worktree_opts (codes "git@x") (codes "main") (codes "/w") ≡ none)
unfolding validate_worktree_opts
opts = (refl, refl, refl)

worktree_slug-IsLabel_example :
    IsLabel (worktree_slug fixed (codes "my-shop") (codes "fix/é") (codes "/w"))
    × (length (worktree_slug fixed (codes "my-shop") (codes "fix/é") (codes "/w")) ≤ dns_label_max)
worktree_slug-IsLabel_example =
    worktree_slug-IsLabel fixed (codes "my-shop") (codes "fix/é") (codes "/w") fixed-IsHexDigest
      refl
