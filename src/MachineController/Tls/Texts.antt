-- ===== src/MachineController/Tls/Texts.antt =====
-- The texts of the secret for a TLS bootstrap: the default configurations and the kubeconfigs.
use cluster_api_provider_bri.Prelude.{String, ◌<>◌, [], ◌∷◌, unlines}

-- The text of `generateDefaultKubeletConfig`, with the address of the cluster's DNS.
unfoldable pub kubelet_config_text : String → String
kubelet_config_text dns = unlines (
    "apiVersion: kubelet.config.k8s.io/v1beta1"
    ∷ "kind: KubeletConfiguration"
    ∷ "authentication:"
    ∷ "  anonymous:"
    ∷ "    enabled: false"
    ∷ "  webhook:"
    ∷ "    cacheTTL: 0s"
    ∷ "    enabled: true"
    ∷ "  x509:"
    ∷ "    clientCAFile: /etc/kubernetes/pki/ca.crt"
    ∷ "authorization:"
    ∷ "  mode: Webhook"
    ∷ "  webhook:"
    ∷ "    cacheAuthorizedTTL: 0s"
    ∷ "    cacheUnauthorizedTTL: 0s"
    ∷ "cgroupDriver: systemd"
    ∷ "clusterDNS:"
    ∷ ("- " <> dns)
    ∷ "clusterDomain: cluster.local"
    ∷ "containerLogMaxFiles: 5"
    ∷ "containerLogMaxSize: 10Mi"
    ∷ "contentType: application/vnd.kubernetes.protobuf"
    ∷ "cpuManagerReconcilePeriod: 0s"
    ∷ "evictionHard:"
    ∷ "  imagefs.available: 15%"
    ∷ "  memory.available: 100Mi"
    ∷ "  nodefs.available: 10%"
    ∷ "  nodefs.inodesFree: 5%"
    ∷ "evictionPressureTransitionPeriod: 5m0s"
    ∷ "fileCheckFrequency: 0s"
    ∷ "healthzBindAddress: 127.0.0.1"
    ∷ "healthzPort: 10248"
    ∷ "httpCheckFrequency: 0s"
    ∷ "imageMinimumGCAge: 2m0s"
    ∷ "imageGCHighThresholdPercent: 85"
    ∷ "imageGCLowThresholdPercent: 80"
    ∷ "logging:"
    ∷ "  flushFrequency: 0"
    ∷ "  text:"
    ∷ "    infoBufferSize: \"0\""
    ∷ "  verbosity: 0"
    ∷ "memorySwap: {}"
    ∷ "nodeStatusReportFrequency: 0s"
    ∷ "nodeStatusUpdateFrequency: 0s"
    ∷ "rotateCertificates: true"
    ∷ "runtimeRequestTimeout: 0s"
    ∷ "shutdownGracePeriod: 0s"
    ∷ "shutdownGracePeriodCriticalPods: 0s"
    ∷ "staticPodPath: /etc/kubernetes/manifests"
    ∷ "streamingConnectionIdleTimeout: 0s"
    ∷ "syncFrequency: 0s"
    ∷ "volumeStatsAggPeriod: 0s"
    ∷ [])

-- The text of `generateDefaultKubeProxyConfig`.
unfoldable pub kube_proxy_config_text : String
kube_proxy_config_text = unlines (
    "apiVersion: kubeproxy.config.k8s.io/v1alpha1" ∷ "kind: KubeProxyConfiguration"
    ∷ "bindAddress: 0.0.0.0" ∷ "clientConnection:" ∷ "  acceptContentTypes: \"\"" ∷ "  burst: 10"
    ∷ "  contentType: application/vnd.kubernetes.protobuf"
    ∷ "  kubeconfig: /etc/kubernetes/kube-proxy.kubeconfig" ∷ "  qps: 5" ∷ "clusterCIDR: \"\""
    ∷ "configSyncPeriod: 15m0s" ∷ "conntrack:" ∷ "  maxPerCore: 32768" ∷ "  min: 131072"
    ∷ "  tcpCloseWaitTimeout: 1h0m0s" ∷ "  tcpEstablishedTimeout: 24h0m0s"
    ∷ "enableProfiling: false" ∷ "healthzBindAddress: 0.0.0.0:10256" ∷ "hostnameOverride: \"\""
    ∷ "iptables:" ∷ "  masqueradeAll: false" ∷ "  masqueradeBit: 14" ∷ "  minSyncPeriod: 0s"
    ∷ "  syncPeriod: 30s" ∷ "ipvs:" ∷ "  excludeCIDRs: null" ∷ "  minSyncPeriod: 0s"
    ∷ "  scheduler: \"\"" ∷ "  strictARP: false" ∷ "  syncPeriod: 30s" ∷ "  tcpFinTimeout: 0s"
    ∷ "  tcpTimeout: 0s" ∷ "  udpTimeout: 0s" ∷ "metricsBindAddress: 127.0.0.1:10249" ∷ "mode: \"\""
    ∷ "nodePortAddresses: null" ∷ "oomScoreAdj: -999" ∷ "portRange: \"\"" ∷ [])

-- The kubeconfig of `generateBootstrapKubeconfigWithToken`.
unfoldable pub bootstrap_kubeconfig_text : String → String → String → String
bootstrap_kubeconfig_text ca server token = unlines (
    "apiVersion: v1"
    ∷ "kind: Config"
    ∷ "clusters:"
    ∷ "- cluster:"
    ∷ ("    certificate-authority-data: " <> ca)
    ∷ ("    server: " <> server)
    ∷ "  name: bootstrap"
    ∷ "contexts:"
    ∷ "- context:"
    ∷ "    cluster: bootstrap"
    ∷ "    user: bootstrap"
    ∷ "  name: bootstrap"
    ∷ "current-context: bootstrap"
    ∷ "users:"
    ∷ "- name: bootstrap"
    ∷ "  user:"
    ∷ ("    token: " <> token)
    ∷ [])

-- The kubeconfig of `generateKubeProxyKubeconfig`.
unfoldable pub token_kubeconfig_text : String → String → String → String
token_kubeconfig_text ca server token = unlines (
    "apiVersion: v1"
    ∷ "kind: Config"
    ∷ "clusters:"
    ∷ "- cluster:"
    ∷ ("    certificate-authority-data: " <> ca)
    ∷ ("    server: " <> server)
    ∷ "  name: default-cluster"
    ∷ "contexts:"
    ∷ "- context:"
    ∷ "    cluster: default-cluster"
    ∷ "    namespace: default"
    ∷ "    user: default-auth"
    ∷ "  name: default-context"
    ∷ "current-context: default-context"
    ∷ "users:"
    ∷ "- name: default-auth"
    ∷ "  user:"
    ∷ ("    token: " <> token)
    ∷ [])

-- The kubeconfig of kube-proxy with the certificate of the kubelet.
unfoldable pub certificate_kubeconfig_text : String → String → String
certificate_kubeconfig_text ca server =
    unlines (
      "apiVersion: v1"
      ∷ "kind: Config"
      ∷ "clusters:"
      ∷ "- cluster:"
      ∷ ("    certificate-authority-data: " <> ca)
      ∷ ("    server: " <> server)
      ∷ "  name: default-cluster"
      ∷ "contexts:"
      ∷ "- context:"
      ∷ "    cluster: default-cluster"
      ∷ "    namespace: default"
      ∷ "    user: default-auth"
      ∷ "  name: default-context"
      ∷ "current-context: default-context"
      ∷ "users:"
      ∷ "- name: default-auth"
      ∷ "  user:"
      ∷ "    client-certificate: /var/lib/kubelet/pki/kubelet-client-current.pem"
      ∷ "    client-key: /var/lib/kubelet/pki/kubelet-client-current.pem"
      ∷ [])
    <> " "
