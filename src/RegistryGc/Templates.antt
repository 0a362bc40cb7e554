-- ===== src/RegistryGc/Templates.antt =====
-- The volumes of the registry's Deployment that setReadOnly of internal/controller/registrygc.go
-- retargets.
use shpyrd.Common.{
  String, ◌≡◌, refl, ◌∙◌, Bool, true, false, ◌&&◌, Option, none, some, [], ◌∷◌, map, ◌==◌, arith,
  any, eq_refl,
}
use shpyrd.RegistryGc.Collector.{Volume, Template, is_changed, retarget}

-- The volumes called config that have a config map have the one wanted.
abbrev pub HasConfig : String → Template → Type 0
HasConfig want c = any (is_changed want) c ≡ false

retarget-is_changed : (want : String) (v : Volume) → is_changed want (retarget want v) ≡ false
retarget-is_changed want v = by_map v.config_map
  where
    by_map :
        (m : Option String) → is_changed want (retarget want (record v { config_map = m })) ≡ false
    by_map none = ground arith
    by_map (some n) = ground (arith, eq_refl want)

retarget-HasConfig : (want : String) (c : Template) → HasConfig want (map (retarget want) c)
unfolding any
retarget-HasConfig want [] = refl
retarget-HasConfig want (v ∷ c) =
    ground (arith, retarget-is_changed want v, retarget-HasConfig want c)

abbrev is_name : String → Option String → Bool
is_name want none = false
is_name want (some n) = n == want

abbrev is_some {ℓ} : {A : Type ℓ} → Option A → Bool
is_some none = false
is_some (some a) = true

-- The volume is the one called config and mounts this config map.
abbrev pub mounts_named : String → Volume → Bool
mounts_named want v = v.name == "config" && is_name want v.config_map

-- The volume is the one called config and mounts a config map.
abbrev pub mounts_some : Volume → Bool
mounts_some v = v.name == "config" && is_some v.config_map

retarget-mounts_named :
    (want : String) (v : Volume) → mounts_named want (retarget want v) ≡ mounts_some v
retarget-mounts_named want v = by_map v.config_map
  where
    by_map :
        (m : Option String)
        → mounts_named want (retarget want (record v { config_map = m }))
          ≡ mounts_some (record v { config_map = m })
    by_map none = ground arith
    by_map (some n) = ground (arith, eq_refl want)

mounts_some-retarget : (want : String) (v : Volume) → mounts_some (retarget want v) ≡ mounts_some v
mounts_some-retarget want v = by_map v.config_map
  where
    by_map :
        (m : Option String)
        → mounts_some (retarget want (record v { config_map = m }))
          ≡ mounts_some (record v { config_map = m })
    by_map none = ground arith
    by_map (some n) = ground arith

retarget-mounts :
    (want : String) (c : Template)
    → any (mounts_named want) (map (retarget want) c) ≡ any mounts_some c
unfolding any
retarget-mounts want [] = refl
retarget-mounts want (v ∷ c) = ground (arith, retarget-mounts_named want v, retarget-mounts want c)

pub retarget-mounts_some :
    (want : String) (c : Template) → any mounts_some (map (retarget want) c) ≡ any mounts_some c
unfolding any
retarget-mounts_some want [] = refl
retarget-mounts_some want (v ∷ c) =
    ground (arith, mounts_some-retarget want v, retarget-mounts_some want c)

-- The template d has the configuration wanted where c has any.
abbrev pub IsSwitched : String → Template → Template → Type 0
IsSwitched want c d = (any (mounts_named want) d ≡ any mounts_some c) × HasConfig want d

pub retarget-IsSwitched :
    (want : String) (c b : Template)
    → any mounts_some b ≡ any mounts_some c
    → IsSwitched want c (map (retarget want) b)
retarget-IsSwitched want c b k = (retarget-mounts want b ∙ k, retarget-HasConfig want b)
