-- ===== src/Provider/Settings/Sound.antt =====
-- failover-provider/provider.py: what every configuration that is read from the environment has.
use zkdeal_cloud_deployer_in.Base.{not, subst, true, ◌&&◌, ◌==◌, ◌||◌, ◌≡◌, ◌≤◌}
use zkdeal_cloud_deployer_in.Base.Lists.{length}
use zkdeal_cloud_deployer_in.Base.Text.{is_safe_id}
use zkdeal_cloud_deployer_in.Promotion.Settings.{Environment, good}
use zkdeal_cloud_deployer_in.Provider.Probes.{Config}
use zkdeal_cloud_deployer_in.Promotion.Settings.Sound.{
  demanded, good_injective, integer-within, not-true, not_below, read_first,
}
use zkdeal_cloud_deployer_in.Provider.Settings.{provider_config}

pub record SoundProvider (config : Config) : Type 0 where
  pub known_platform : (config.platform == "docker" || config.platform == "kubernetes") ≡ true
  pub witnesses : 2 ≤ length config.active_health_urls
  pub signers : 1 ≤ length config.signer_authority_health_urls
  pub identities :
      ((is_safe_id config.active_coordinator_id && is_safe_id config.standby_coordinator_id)
        && not (config.active_coordinator_id == config.standby_coordinator_id))
      ≡ true
  pub timeout : (10 ≤ config.platform_timeout_seconds) × (config.platform_timeout_seconds ≤ 240)

module _ (env : Environment) where
  -- A configuration of the provider that is read from the environment names one of the two platforms,
  -- at least two witnesses and one signer role, two different safe identities, and a platform timeout
  -- of 10 to 240 seconds.
  pub provider_config-SoundProvider :
      (config : Config) → provider_config env ≡ good config → SoundProvider config
  unfolding provider_config
  provider_config-SoundProvider config e =
      let (platform, p1, e1) = read_first _ _ _ e in
      let (urls, p2, e2) = read_first _ _ _ e1 in
      let (two, p3, e3) = read_first _ _ _ e2 in
      let (signer_urls, p4, e4) = read_first _ _ _ e3 in
      let (one, p5, e5) = read_first _ _ _ e4 in
      let (safe, p6, e6) = read_first _ _ _ e5 in
      let (tls, p7, e7) = read_first _ _ _ e6 in
      let (standby_url, p8, e8) = read_first _ _ _ e7 in
      let (indexer_url, p9, e9) = read_first _ _ _ e8 in
      let (provider_token, p10, e10) = read_first _ _ _ e9 in
      let (approval_token, p11, e11) = read_first _ _ _ e10 in
      let (request, p12, e12) = read_first _ _ _ e11 in
      let (timeout, p13, e13) = read_first _ _ _ e12 in
      let (port, p14, e14) = read_first _ _ _ e13 in
      subst SoundProvider (good_injective e14) (record {
        known_platform = demanded _ _ platform p1;
        witnesses = not_below _ _ (not-true _ (demanded _ _ two p3));
        signers = not_below _ _ (not-true _ (demanded _ _ one p5));
        identities = demanded _ _ safe p6;
        timeout = integer-within env _ _ _ _ timeout p13;
      })
