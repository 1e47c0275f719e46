-- ===== src/Utils/Tests.antt =====
-- Splitting a path.
use cppmhd.Prelude.{[], ◌++◌, codes, ◌≡◌, ◌≢◌}
use cppmhd.Utils.Split.{finished, running, split}
use cppmhd.Utils.Split.Ending.{split-ends}
use cppmhd.Utils.Split.Tokens.{tokens, split-tokens}

split-tokens_example :
    split (codes "/a//b/") [] (codes "/") ≡ finished ([] ++ tokens b'/' (codes "/a//b/"))
split-tokens_example = split-tokens (codes "/a//b/") [] b'/'

split-ends_example : split (codes "a, b") [] (codes ", ") ≢ running
split-ends_example = split-ends (codes "a, b") [] (codes ", ")
