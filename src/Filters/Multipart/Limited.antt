-- ===== src/Filters/Multipart/Limited.antt =====
-- Where services and resources run the filter of filter/multipart/multipart.go.
use go_relax.Base.{
  ℕ, none, some, List, [], ◌∷◌, ◌++◌, ◌≡◌, refl, ap, inl, inr, Option-cases, arith, if◌then◌else◌,
}
use go_relax.Context.{HandlerFunc}
use go_relax.Service.{
  a_function, Filter, Service, Entity, a_filter, use_entity, use_all, attach_filters,
}
use go_relax.Service.Resources.{resource_filters}
use go_relax.Filters.Multipart.{Upload, filter}

module _ (u : Upload) (limit : ℕ) where
  use_all-filter :
      (es more : List Entity) (svc : Service)
      → use_all (es ++ a_filter (filter u limit) ∷ more) svc ≡ use_all (es ++ more) svc
  unfolding use_all use_entity filter
  use_all-filter [] more svc = refl
  use_all-filter (e ∷ es) more svc = use_all-filter es more (use_entity e svc)

  resource_filters-filter :
      (fs more : List Filter)
      → resource_filters (fs ++ filter u limit ∷ more) ≡ resource_filters (fs ++ more)
  unfolding resource_filters filter
  resource_filters-filter [] more = refl
  resource_filters-filter (f ∷ fs) more =
      let rest = resource_filters-filter fs more in
      elim (Option-cases f.run_in) [
        | inl always ↦ ground arith
        | inr (allowed, limited) ↦ ground arith
      ]

  attach_filters-filter :
      (fs more : List Filter) (h : HandlerFunc)
      → attach_filters (fs ++ filter u limit ∷ more) h ≡ attach_filters (fs ++ more) h
  unfolding attach_filters filter
  attach_filters-filter [] more h = refl
  attach_filters-filter (f ∷ fs) more h =
      ap
        (λ (x : HandlerFunc). elim f.run_in [
          | none ↦ f.run x
          | some allowed ↦ if allowed a_function then f.run x else x
        ])
        (attach_filters-filter fs more h)

  -- The filter multipart never runs: among the entities that a service uses, among the filters that a
  -- resource is given, and among those that are attached to a route, it is as if it was not there.
  pub filter_lost :
      (es es' : List Entity) (svc : Service) (fs fs' : List Filter) (h : HandlerFunc)
      → (use_all (es ++ a_filter (filter u limit) ∷ es') svc ≡ use_all (es ++ es') svc)
        × (resource_filters (fs ++ filter u limit ∷ fs') ≡ resource_filters (fs ++ fs'))
        × (attach_filters (fs ++ filter u limit ∷ fs') h ≡ attach_filters (fs ++ fs') h)
  filter_lost es es' svc fs fs' h =
      (use_all-filter es es' svc, resource_filters-filter fs fs', attach_filters-filter fs fs' h)
